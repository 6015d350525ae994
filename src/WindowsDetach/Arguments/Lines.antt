-- ===== src/WindowsDetach/Arguments/Lines.antt =====
-- src/windows_detach.rs: the round trip of the whole command line. Proofs.
use mathlib.Core.List.{append-nil, append_assoc}
use procherd.Prelude.{
  ℕ, zero, suc, ◌+◌, ◌*◌, ◌≡◌, refl, sym, ap, ◌∙◌, inl, inr, Bool, true, false, List, [], ◌∷◌, ◌++◌,
  any, ◌==◌, is_empty, if◌then◌else◌, Bool-cases, ==_iff, arith,
}
use procherd.Prelude.Texts.{Text, codes}
use procherd.WindowsDetach.{
  IoResult, ◌>>=◌, backslash, quote, space, wide, repeat_n, needs_quotes, escaped, append_quoted,
  build_command_line,
}
use procherd.WindowsDetach.Arguments.{
  Reader, ReaderRules, is_blank, Ending, last, more, repeat-snoc, argument-escaped, argument-plain,
}

-- Blanks between arguments are skipped.
abbrev pub skip_blanks : Text → Text
skip_blanks [] = []
skip_blanks (u ∷ s) = if is_blank u then skip_blanks s else u ∷ s

abbrev pub arguments : Reader → ℕ → Text → List Text
arguments r zero s = []
arguments r (suc k) s =
    let (a, rest) = r.argument false (skip_blanks s) in
    if is_empty (skip_blanks s) then [] else a ∷ arguments r k rest

-- The first k + 1 arguments of a command line.
abbrev pub argv : Reader → ℕ → Text → List Text
argv r k line = let (p, s) = r.program line in p ∷ arguments r k s

abbrev pub ends_in_backslash : Text → Bool
ends_in_backslash [] = false
ends_in_backslash (u ∷ []) = u == backslash
ends_in_backslash (u ∷ v ∷ s) = ends_in_backslash (v ∷ s)

-- The quoted form of an argument.
abbrev quoted_form : Text → Text
quoted_form a = append_quoted [] a

append_quoted-append : (output a : Text) → append_quoted output a ≡ output ++ quoted_form a
unfolding append_quoted
append_quoted-append output a = elim (Bool-cases (needs_quotes a)) [
  | inl e ↦ rw e refl
  | inr e ↦ rw e refl
]

unquoted :
    (u : ℕ) (a t : Text) → needs_quotes (u ∷ a) ≡ false → skip_blanks (u ∷ (a ++ t)) ≡ u ∷ (a ++ t)
unquoted u a t e = let b : is_blank u ≡ false = ground arith in rw b refl

skip_blanks-quoted : (a t : Text) → skip_blanks (quoted_form a ++ t) ≡ quoted_form a ++ t
unfolding append_quoted
skip_blanks-quoted [] t = refl
skip_blanks-quoted (u ∷ a) t = elim (Bool-cases (needs_quotes (u ∷ a))) [
  | inl e ↦ rw e refl
  | inr e ↦ rw e (unquoted u a t e)
]

is_empty-quoted : (a t : Text) → is_empty (quoted_form a ++ t) ≡ false
unfolding append_quoted
is_empty-quoted [] t = refl
is_empty-quoted (u ∷ a) t = elim (Bool-cases (needs_quotes (u ∷ a))) [
  | inl e ↦ rw e refl
  | inr e ↦ rw e refl
]

has_nul : Text → Bool
has_nul = any (λ u. u == 0)

any-append :
    (p : ℕ → Bool) (s t : Text) → any p s ≡ false → any p t ≡ false → any p (s ++ t) ≡ false
any-append p [] t h k = k
any-append p (u ∷ s) t h k = ground (arith, any-append p s t)

has_nul-repeat : (n : ℕ) → any (λ u. u == 0) (repeat_n backslash n) ≡ false
has_nul-repeat zero = refl
has_nul-repeat (suc n) = has_nul-repeat n

has_nul-escaped :
    (n : ℕ) (a : Text) → any (λ u. u == 0) a ≡ false → any (λ u. u == 0) (escaped n a) ≡ false
unfolding escaped
has_nul-escaped n [] h = any-append _ (repeat_n backslash (n * 2)) _ (has_nul-repeat (n * 2)) refl
has_nul-escaped n (u ∷ a) h = elim (Bool-cases (u == backslash)) [
  | inl b ↦ rw b (has_nul-escaped (suc n) a (ground arith))
  | inr b ↦ elim (Bool-cases (u == quote)) [
    | inl q ↦
        rw (b, q)
          (any-append _ (repeat_n backslash (n * 2 + 1)) _ (has_nul-repeat (n * 2 + 1))
            (has_nul-escaped 0 a (ground arith)))
    | inr q ↦
        rw (b, q)
          (any-append _ (repeat_n backslash n) _ (has_nul-repeat n)
            (let z : (u == 0) ≡ false = ground arith in rw z (has_nul-escaped 0 a (ground arith))))
  ]
]

escaped-nil : escaped 0 [] ≡ quote ∷ []
unfolding escaped
escaped-nil = refl

escaped-backslash :
    (n u : ℕ) (a : Text) → (u == backslash) ≡ true → escaped n (u ∷ a) ≡ escaped (suc n) a
unfolding escaped
escaped-backslash n u a b = rw b refl

escaped-other :
    (n u : ℕ) (a : Text)
    → (u == backslash) ≡ false
    → (u == quote) ≡ false
    → escaped n (u ∷ a) ≡ repeat_n backslash n ++ (u ∷ escaped 0 a)
unfolding escaped
escaped-other n u a b q = rw (b, q) refl

-- Backslashes before no quotation mark stay as they are.
escaped-program :
    (n : ℕ) (u : ℕ) (a : Text)
    → any (λ u. u == quote) (u ∷ a) ≡ false
    → ends_in_backslash (u ∷ a) ≡ false
    → escaped n (u ∷ a) ≡ repeat_n backslash n ++ (u ∷ (a ++ (quote ∷ [])))
escaped-program n u [] h e =
    escaped-other n u [] e (ground arith) ∙ ap (λ s. repeat_n backslash n ++ (u ∷ s)) escaped-nil
escaped-program n u (v ∷ a) h e = elim (Bool-cases (u == backslash)) [
  | inl b ↦
      escaped-backslash n u (v ∷ a) b
      ∙ escaped-program (suc n) v a (ground arith) e
      ∙ repeat-snoc n (v ∷ (a ++ (quote ∷ [])))
      ∙ ap (λ w. repeat_n backslash n ++ (w ∷ v ∷ (a ++ (quote ∷ []))))
          (sym ((==_iff u backslash).0 b))
  | inr b ↦
      escaped-other n u (v ∷ a) b (ground arith)
      ∙ ap (λ s. repeat_n backslash n ++ (u ∷ s)) (escaped-program 0 v a (ground arith) e)
]

has_nul-quoted :
    (a : Text) → any (λ u. u == 0) a ≡ false → any (λ u. u == 0) (quoted_form a) ≡ false
unfolding append_quoted
has_nul-quoted a h = elim (Bool-cases (needs_quotes a)) [
  | inl e ↦ rw e (has_nul-escaped 0 a h)
  | inr e ↦ rw e h
]

-- The line without its terminator.
abbrev whole_line : Text → Text → Text
whole_line executable run_dir =
    quoted_form executable
    ++ (space
        ∷ (codes "__supervise" ++ (space ∷ (codes "--run-dir" ++ (space ∷ quoted_form run_dir)))))

inr-injective : (s t : Text) → ◌≡◌ {A = IoResult Text} (inr s) (inr t) → s ≡ t
inr-injective s t h = cc

inr-inl : (e t : Text) → ¬ (◌≡◌ {A = IoResult Text} (inl e) (inr t))
inr-inl e t h = cc

wide-inr :
    {A : Type 0} (r : IoResult Text) (f : Text → IoResult A) (b : A)
    → (r >>= f) ≡ inr b
    → (a : Text) × (r ≡ inr a) × (f a ≡ inr b)
wide-inr (inl e) f b h = cc
wide-inr (inr a) f b h = (a, refl, h)

wide-ok : (s t : Text) → wide s ≡ inr t → (s ≡ t) × (any (λ u. u == 0) s ≡ false)
unfolding wide
wide-ok s t h = elim (Bool-cases (any (λ u. u == 0) s)) [
  | inl e ↦ absurd (inr-inl _ t (rw e at h))
  | inr e ↦ (inr-injective s t (rw e at h), e)
]

assembled :
    (x d : Text)
    → append_quoted
        (quoted_form x
          ++ (space ∷ [])
          ++ codes "__supervise"
          ++ (space ∷ [])
          ++ codes "--run-dir"
          ++ (space ∷ []))
        d
      ≡ whole_line x d
assembled x d =
    append_quoted-append _ d
    ∙ rw
        (
          append_assoc (quoted_form x),
          append_assoc (quoted_form x),
          append_assoc (quoted_form x),
          append_assoc (quoted_form x),
          append_assoc (quoted_form x),
        )
        refl

build_command_line-whole :
    (executable run_dir units : Text)
    → build_command_line executable run_dir ≡ inr units
    → (units ≡ whole_line executable run_dir ++ (0 ∷ []))
      × (any (λ u. u == 0) (whole_line executable run_dir) ≡ false)
unfolding build_command_line
build_command_line-whole executable run_dir units h =
    let (p, ep, h) = wide-inr (wide executable) _ units h in
    let (d, ed, h) = wide-inr (wide run_dir) _ units h in
    let (p-is, np) = wide-ok executable p ep in
    let (d-is, nd) = wide-ok run_dir d ed in
    (
      sym (inr-injective _ units h)
          ∙ ap (λ t. t ++ (0 ∷ [])) (assembled p d)
          ∙ ap (λ x. whole_line x d ++ (0 ∷ [])) (sym p-is)
          ∙ ap (λ y. whole_line executable y ++ (0 ∷ [])) (sym d-is),
      any-append _ (quoted_form executable) _ (has_nul-quoted executable np)
          (has_nul-quoted run_dir nd),
    )

module _ (r : Reader) (laws : ReaderRules r) where
  argument-quoted :
      (a t rest : Text) → Ending t rest → r.argument false (quoted_form a ++ t) ≡ (a, rest)
  unfolding append_quoted
  argument-quoted a t rest e = elim (Bool-cases (needs_quotes a)) [
    | inl n ↦
        rw n (laws.delimiter false 0 (escaped 0 a ++ t) ∙ argument-escaped r laws 0 a t rest e)
    | inr n ↦ rw n (argument-plain r laws 0 a t rest (ground arith) e)
  ]

  program-quoted :
      (p s : Text)
      → any (λ u. u == quote) p ≡ false
      → ends_in_backslash p ≡ false
      → r.program (quoted_form p ++ (space ∷ s)) ≡ (p, space ∷ s)
  unfolding append_quoted
  program-quoted [] s h e =
      ap (λ t. r.program (quote ∷ (t ++ (space ∷ s)))) escaped-nil
      ∙ laws.quoted_program [] (space ∷ s) refl
  program-quoted (u ∷ p) s h e = elim (Bool-cases (needs_quotes (u ∷ p))) [
    | inl n ↦
        rw (n, escaped-program 0 u p h e, append_assoc p)
          (laws.quoted_program (u ∷ p) (space ∷ s) h)
    | inr n ↦ rw n (laws.plain_program (u ∷ p) s n)
  ]

  arguments-quoted :
      (k : ℕ) (a t rest : Text)
      → Ending t rest
      → arguments r (suc k) (quoted_form a ++ t) ≡ a ∷ arguments r k rest
  arguments-quoted k a t rest e =
      rw (skip_blanks-quoted a t, is_empty-quoted a t, argument-quoted a t rest e) refl

  arguments-nothing : (k : ℕ) → arguments r k [] ≡ []
  arguments-nothing zero = refl
  arguments-nothing (suc k) = refl

  arguments-fixed :
      (k : ℕ) (d : Text)
      → arguments r
          (suc (suc (suc k)))
          (codes "__supervise" ++ (space ∷ (codes "--run-dir" ++ (space ∷ quoted_form d))))
        ≡ codes "__supervise" ∷ codes "--run-dir" ∷ d ∷ []
  unfolding append_quoted
  arguments-fixed k d =
      arguments-quoted (suc (suc k)) (codes "__supervise") _ _ (more _)
      ∙ ap (λ l. codes "__supervise" ∷ l)
          (arguments-quoted (suc k) (codes "--run-dir") _ _ (more _)
            ∙ ap (λ l. codes "--run-dir" ∷ l)
                (ap (arguments r (suc k)) (sym (append-nil (quoted_form d)))
                  ∙ arguments-quoted k d [] [] last
                  ∙ ap (λ l. d ∷ l) (arguments-nothing k)))

  -- If the line is built, from an executable whose path has no quotation mark and does not end in
  -- a backslash, then it is ended by its only zero, and a reader that follows the documented rules
  -- finds the executable, the two fixed arguments and the run directory in it, and nothing more.
  pub build_command_line-argv :
      (executable run_dir units : Text) (k : ℕ)
      → build_command_line executable run_dir ≡ inr units
      → any (λ u. u == quote) executable ≡ false
      → ends_in_backslash executable ≡ false
      → (line : Text) × (units ≡ line ++ (0 ∷ []))
        × (any (λ u. u == 0) line ≡ false)
        × (argv r (suc (suc (suc k))) line
            ≡ executable ∷ codes "__supervise" ∷ codes "--run-dir" ∷ run_dir ∷ [])
  build_command_line-argv executable run_dir units k b h e =
      let (u, n) = build_command_line-whole executable run_dir units b in
      (
        whole_line executable run_dir,
        u,
        n,
        rw (program-quoted executable _ h e) (ap (λ l. executable ∷ l) (arguments-fixed k run_dir)),
      )
