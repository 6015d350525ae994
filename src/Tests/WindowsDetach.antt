-- ===== src/Tests/WindowsDetach.antt =====
-- A reader of command lines that follows the documented rules, and tests of src/windows_detach.rs.
use mathlib.Core.List.{append-nil}
use procherd.Prelude.{
  ℕ, zero, suc, ◌+◌, ◌*◌, ◌≡◌, refl, sym, ap, ◌∙◌, Bool, true, false, not, ◌&&◌, [], ◌∷◌, ◌++◌, any,
  ◌==◌, if◌then◌else◌, arith,
}
use procherd.Prelude.Texts.{Text, codes}
use procherd.WindowsDetach.{
  backslash, quote, space, repeat_n, is_special, needs_quotes, escaped, wide, append_quoted,
  build_command_line,
}
use procherd.WindowsDetach.Arguments.{Reader, ReaderRules, is_blank, prepend}
use procherd.WindowsDetach.Arguments.Lines.{argv, build_command_line-argv}

-- Half of a number, and whether it is odd.
halve : ℕ → ℕ × Bool
halve zero = (0, false)
halve (suc zero) = (0, true)
halve (suc (suc n)) = let (h, odd) = halve n in (suc h, odd)

read_argument : ℕ → Bool → Text → Text × Text
unfolding halve
read_argument n quoted [] = (repeat_n backslash n, [])
read_argument n quoted (u ∷ s) =
    let counted = read_argument (suc n) quoted s in
    let turned = read_argument 0 (not quoted) s in
    let kept = read_argument 0 quoted s in
    let (half, odd) = halve n in
    if u == backslash
    then counted
    else if u == quote
    then if odd
      then prepend (repeat_n backslash half ++ (quote ∷ [])) kept
      else prepend (repeat_n backslash half) turned
    else if is_blank u && not quoted
    then (repeat_n backslash n, s)
    else prepend (repeat_n backslash n ++ (u ∷ [])) kept

until_quote : Text → Text × Text
until_quote [] = ([], [])
until_quote (u ∷ s) =
    let rest = until_quote s in if u == quote then ([], s) else prepend (u ∷ []) rest

until_blank : Text → Text × Text
until_blank [] = ([], [])
until_blank (u ∷ s) =
    let rest = until_blank s in if is_blank u then ([], u ∷ s) else prepend (u ∷ []) rest

read_program : Text → Text × Text
unfolding until_quote until_blank
read_program [] = ([], [])
read_program (u ∷ s) = if u == quote then until_quote s else until_blank (u ∷ s)

abbrev documented : Reader
documented = record { program = read_program; argument = read_argument 0 }

counted-repeat :
    (m n : ℕ) (quoted : Bool) (s : Text)
    → read_argument m quoted (repeat_n backslash n ++ s) ≡ read_argument (m + n) quoted s
unfolding read_argument
counted-repeat m zero quoted s = ap (λ k. read_argument k quoted s) (omega arith)
counted-repeat m (suc n) quoted s =
    counted-repeat (suc m) n quoted s ∙ ap (λ k. read_argument k quoted s) (omega arith)

counted-from_zero :
    (n : ℕ) (quoted : Bool) (s : Text)
    → read_argument 0 quoted (repeat_n backslash n ++ s) ≡ read_argument n quoted s
counted-from_zero n quoted s =
    counted-repeat 0 n quoted s ∙ ap (λ k. read_argument k quoted s) (omega arith)

halve-even : (n : ℕ) → halve (n * 2) ≡ (n, false)
unfolding halve
halve-even zero = refl
halve-even (suc n) =
    let e : suc n * 2 ≡ suc (suc (n * 2)) = omega arith in rw (e, halve-even n) refl

halve-odd : (n : ℕ) → halve (n * 2 + 1) ≡ (n, true)
unfolding halve
halve-odd zero = refl
halve-odd (suc n) =
    let e : suc n * 2 + 1 ≡ suc (suc (n * 2 + 1)) = omega arith in rw (e, halve-odd n) refl

until_quote-found :
    (p s : Text) → any (λ u. u == quote) p ≡ false → until_quote (p ++ (quote ∷ s)) ≡ (p, s)
unfolding until_quote
until_quote-found [] s h = refl
until_quote-found (u ∷ p) s h =
    let n : (u == quote) ≡ false = ground arith in rw (n, until_quote-found p s (ground arith)) refl

until_blank-found :
    (p s : Text) → any is_special p ≡ false → until_blank (p ++ (space ∷ s)) ≡ (p, space ∷ s)
unfolding until_blank
until_blank-found [] s h = refl
until_blank-found (u ∷ p) s h =
    let n : is_blank u ≡ false = ground arith in rw (n, until_blank-found p s (ground arith)) refl

read_program-plain :
    (p s : Text) → needs_quotes p ≡ false → read_program (p ++ (space ∷ s)) ≡ (p, space ∷ s)
unfolding read_program
read_program-plain [] s h = cc
read_program-plain (u ∷ p) s h =
    let n : (u == quote) ≡ false = ground arith in rw n (until_blank-found (u ∷ p) s h)

read_argument-blank :
    (n u : ℕ) (s : Text)
    → is_blank u ≡ true
    → read_argument n false (u ∷ s) ≡ (repeat_n backslash n, s)
unfolding read_argument
read_argument-blank n u s k =
    let b : (u == backslash) ≡ false = ground arith in
    let q : (u == quote) ≡ false = ground arith in
    let t : (is_blank u && true) ≡ true = ground arith in rw (b, q, t) refl

documented-rules : ReaderRules documented
unfolding read_argument read_program
documented-rules = record {
  delimiter = λ quoted n s. counted-from_zero (n * 2) quoted (quote ∷ s) ∙ rw (halve-even n) refl;
  escaped_quote =
      λ quoted n s. counted-from_zero (n * 2 + 1) quoted (quote ∷ s) ∙ rw (halve-odd n) refl;
  plain = λ quoted n u s b q k. counted-from_zero n quoted (u ∷ s) ∙ rw (b, q, k) refl;
  blank = λ n u s k. counted-from_zero n false (u ∷ s) ∙ read_argument-blank n u s k;
  end = λ quoted n.
      ap (read_argument 0 quoted) (sym (append-nil (repeat_n backslash n)))
      ∙ counted-from_zero n quoted [];
  quoted_program = λ p s h. until_quote-found p s h;
  plain_program = λ p s h. read_program-plain p s h;
}

-- A run directory with spaces, quotation marks and backslashes.
abbrev odd_directory : Text
odd_directory = codes "C:\\runs dir\\\"x\\"

abbrev procherd_exe : Text
procherd_exe = codes "C:\\Program Files\\procherd.exe"

abbrev built : Text
built =
    append_quoted (append_quoted [] procherd_exe ++ codes " __supervise --run-dir ") odd_directory
    ++ (0 ∷ [])

build_command_line-argv_example :
    (line : Text) × (built ≡ line ++ (0 ∷ []))
    × (any (λ u. u == 0) line ≡ false)
    × (argv documented 5 line
        ≡ procherd_exe ∷ codes "__supervise" ∷ codes "--run-dir" ∷ odd_directory ∷ [])
unfolding build_command_line wide append_quoted escaped
build_command_line-argv_example =
    build_command_line-argv documented documented-rules procherd_exe odd_directory built 2 refl refl
      refl

-- The tests of the module.
quotes_arguments_without_changing_their_value :
    (append_quoted [] (codes "plain") ≡ codes "plain")
    × (append_quoted [] [] ≡ codes "\"\"")
    × (append_quoted [] (codes "two words") ≡ codes "\"two words\"")
    × (append_quoted [] (codes "a\"b") ≡ codes "\"a\\\"b\"")
    × (append_quoted [] (codes "C:\\directory with space\\")
        ≡ codes "\"C:\\directory with space\\\\\"")
unfolding append_quoted escaped
quotes_arguments_without_changing_their_value = (refl, refl, refl, refl, refl)
