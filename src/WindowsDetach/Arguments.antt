-- ===== src/WindowsDetach/Arguments.antt =====
-- src/windows_detach.rs: what a program reads from the quoted arguments. The reader of command lines
-- is not this code's: it is a parameter, with the rules that are documented for it.
pub mod Lines
use mathlib.Core.List.{append-nil, append_assoc}
use procherd.Prelude.{
  ℕ, zero, suc, ◌+◌, ◌*◌, ◌≡◌, refl, sym, ap, ◌∙◌, ◌⊎◌, inl, inr, Bool, true, false, not, ◌&&◌,
  ◌||◌, List, [], ◌∷◌, ◌++◌, any, ◌==◌, is_empty, if◌then◌else◌, Bool-cases, ==_iff, arith,
}
use procherd.Prelude.Texts.{Text, codes}
use procherd.WindowsDetach.{
  IoResult, backslash, quote, space, tab, wide, repeat_n, is_special, needs_quotes, escaped,
  append_quoted, build_command_line,
}

-- `argument quoted s` reads the rest of an argument, inside or outside of quotation marks, and
-- answers it with what follows it; `program s` reads the first argument.
pub record Reader : Type 0 where
  pub program : Text → Text × Text
  pub argument : Bool → Text → Text × Text

abbrev pub prepend : Text → Text × Text → Text × Text
prepend s (a, rest) = (s ++ a, rest)

abbrev pub is_blank : ℕ → Bool
is_blank u = u == space || u == tab

-- The documented rules. 2n backslashes before a quotation mark are n of them, and the mark opens or
-- closes a quoted part; 2n + 1 of them are n and the mark itself; before anything else a backslash
-- is itself; and a blank outside of quotation marks ends the argument.
pub record ReaderRules (r : Reader) : Type 0 where
  pub delimiter :
      (quoted : Bool) (n : ℕ) (s : Text)
      → r.argument quoted (repeat_n backslash (n * 2) ++ (quote ∷ s))
        ≡ prepend (repeat_n backslash n) (r.argument (not quoted) s)
  pub escaped_quote :
      (quoted : Bool) (n : ℕ) (s : Text)
      → r.argument quoted (repeat_n backslash (n * 2 + 1) ++ (quote ∷ s))
        ≡ prepend (repeat_n backslash n ++ (quote ∷ [])) (r.argument quoted s)
  pub plain :
      (quoted : Bool) (n u : ℕ) (s : Text)
      → (u == backslash) ≡ false
      → (u == quote) ≡ false
      → (is_blank u && not quoted) ≡ false
      → r.argument quoted (repeat_n backslash n ++ (u ∷ s))
        ≡ prepend (repeat_n backslash n ++ (u ∷ [])) (r.argument quoted s)
  pub blank :
      (n u : ℕ) (s : Text)
      → is_blank u ≡ true
      → r.argument false (repeat_n backslash n ++ (u ∷ s)) ≡ (repeat_n backslash n, s)
  pub end :
      (quoted : Bool) (n : ℕ)
      → r.argument quoted (repeat_n backslash n) ≡ (repeat_n backslash n, [])
  -- The first argument has no escapes.
  pub quoted_program :
      (p s : Text)
      → any (λ u. u == quote) p ≡ false
      → r.program (quote ∷ (p ++ (quote ∷ s))) ≡ (p, s)
  pub plain_program :
      (p s : Text) → needs_quotes p ≡ false → r.program (p ++ (space ∷ s)) ≡ (p, space ∷ s)

pub repeat-snoc :
    (n : ℕ) (s : Text) → repeat_n backslash (suc n) ++ s ≡ repeat_n backslash n ++ (backslash ∷ s)
repeat-snoc zero s = refl
repeat-snoc (suc n) s = ap (λ t. backslash ∷ t) (repeat-snoc n s)

-- What may follow an argument, and what is left after it.
pub data Ending : Text → Text → Type 0 where
  last : Ending [] []
  more : (s : Text) → Ending (space ∷ s) s

module _ (r : Reader) (laws : ReaderRules r) where
  open r use {program, argument}
  open laws use {delimiter, escaped_quote, plain, blank, end, quoted_program, plain_program}

  ending :
      (n : ℕ) (t rest : Text)
      → Ending t rest
      → argument false (repeat_n backslash n ++ t) ≡ (repeat_n backslash n, rest)
  ending n t rest last = ap (argument false) (append-nil (repeat_n backslash n)) ∙ end false n
  ending n t rest (more s) = blank n space s refl

  pub argument-escaped :
      (n : ℕ) (a t rest : Text)
      → Ending t rest
      → argument true (escaped n a ++ t) ≡ (repeat_n backslash n ++ a, rest)
  unfolding escaped
  argument-escaped n [] t rest e =
      ap (argument true) (append_assoc (repeat_n backslash (n * 2)) (quote ∷ []) t)
      ∙ delimiter true n t
      ∙ ap (prepend (repeat_n backslash n)) (ending 0 t rest e)
  argument-escaped n (u ∷ a) t rest e = elim (Bool-cases (u == backslash)) [
    | inl b ↦ rw b (
        argument-escaped (suc n) a t rest e
        ∙ ap (λ s. (s, rest))
            (repeat-snoc n a
              ∙ ap (λ v. repeat_n backslash n ++ (v ∷ a)) (sym ((==_iff u backslash).0 b))))
    | inr b ↦ elim (Bool-cases (u == quote)) [
      | inl q ↦
          rw (b, q)
            (ap (argument true)
                (append_assoc (repeat_n backslash (n * 2 + 1)) (quote ∷ escaped 0 a) t)
              ∙ escaped_quote true n (escaped 0 a ++ t)
              ∙ ap (prepend (repeat_n backslash n ++ (quote ∷ []))) (argument-escaped 0 a t rest e)
              ∙ ap (λ s. (s, rest))
                  (append_assoc (repeat_n backslash n) (quote ∷ []) a
                    ∙ ap (λ v. repeat_n backslash n ++ (v ∷ a)) (sym ((==_iff u quote).0 q))))
      | inr q ↦
          rw (b, q)
            (ap (argument true) (append_assoc (repeat_n backslash n) (u ∷ escaped 0 a) t)
              ∙ plain true n u (escaped 0 a ++ t) b q (ground arith)
              ∙ ap (prepend (repeat_n backslash n ++ (u ∷ []))) (argument-escaped 0 a t rest e)
              ∙ ap (λ s. (s, rest)) (append_assoc (repeat_n backslash n) (u ∷ []) a))
    ]
  ]

  pub argument-plain :
      (n : ℕ) (a t rest : Text)
      → any is_special a ≡ false
      → Ending t rest
      → argument false (repeat_n backslash n ++ (a ++ t)) ≡ (repeat_n backslash n ++ a, rest)
  argument-plain n [] t rest h e =
      ending n t rest e ∙ ap (λ s. (s, rest)) (sym (append-nil (repeat_n backslash n)))
  argument-plain n (u ∷ a) t rest h e = elim (Bool-cases (u == backslash)) [
    | inl b ↦
        ap (argument false) (
          ap (λ v. repeat_n backslash n ++ (v ∷ (a ++ t))) ((==_iff u backslash).0 b)
          ∙ sym (repeat-snoc n (a ++ t)))
        ∙ argument-plain (suc n) a t rest (ground arith) e
        ∙ ap (λ s. (s, rest))
            (repeat-snoc n a
              ∙ ap (λ v. repeat_n backslash n ++ (v ∷ a)) (sym ((==_iff u backslash).0 b)))
    | inr b ↦
        plain false n u (a ++ t) b (ground arith) (ground arith)
        ∙ ap (prepend (repeat_n backslash n ++ (u ∷ [])))
            (argument-plain 0 a t rest (ground arith) e)
        ∙ ap (λ s. (s, rest)) (append_assoc (repeat_n backslash n) (u ∷ []) a)
  ]
