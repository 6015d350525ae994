-- ===== src/WindowsDetach.antt =====
-- src/windows_detach.rs: the command line that starts the detached supervisor. A text here is a list
-- of UTF-16 code units; `OsStr::encode_wide` has been applied to the arguments.
pub mod Arguments
use procherd.Prelude.{
  ℕ, zero, suc, ◌+◌, ◌*◌, ◌⊎◌, inl, inr, Bool, ◌||◌, List, [], ◌∷◌, ◌++◌, any, ◌==◌, is_empty,
  if◌then◌else◌,
}
use procherd.Prelude.Texts.{Text, codes}

-- `io::Result`: the error is its text.
abbrev pub IoResult : Type 0 → Type 0
IoResult A = Text ⊎ A

infixl 5 ◌>>=◌
abbrev pub ◌>>=◌ : {A B : Type 0} → IoResult A → (A → IoResult B) → IoResult B
inl e >>= f = inl e
inr a >>= f = f a

abbrev pub backslash : ℕ
backslash = 92

abbrev pub quote : ℕ
quote = 34

abbrev pub space : ℕ
space = 32

abbrev pub tab : ℕ
tab = 9

unfoldable pub wide : Text → IoResult Text
wide units =
    if any (λ u. u == 0) units
    then inl (codes "Windows process argument contains a NUL code unit")
    else inr units

-- iter::repeat_n
abbrev pub repeat_n : ℕ → ℕ → Text
repeat_n u zero = []
repeat_n u (suc n) = u ∷ repeat_n u n

abbrev pub is_special : ℕ → Bool
is_special u = u == space || (u == tab || u == quote)

abbrev pub needs_quotes : Text → Bool
needs_quotes argument = is_empty argument || any is_special argument

-- What the loop and the two statements after it append; `backslashes` is the counter.
unfoldable pub escaped : ℕ → Text → Text
escaped backslashes [] = repeat_n backslash (backslashes * 2) ++ (quote ∷ [])
escaped backslashes (u ∷ argument) =
    let counted = escaped (suc backslashes) argument in
    let reset = escaped 0 argument in
    if u == backslash
    then counted
    else if u == quote
    then repeat_n backslash (backslashes * 2 + 1) ++ (quote ∷ reset)
    else repeat_n backslash backslashes ++ (u ∷ reset)

unfoldable pub append_quoted : Text → Text → Text
append_quoted output argument =
    if needs_quotes argument then output ++ (quote ∷ escaped 0 argument) else output ++ argument

unfoldable pub build_command_line : Text → Text → IoResult Text
build_command_line executable run_dir = do
  program ← wide executable
  let command_line = append_quoted [] program
  let command_line = command_line ++ (space ∷ [])
  let command_line = command_line ++ codes "__supervise"
  let command_line = command_line ++ (space ∷ [])
  let command_line = command_line ++ codes "--run-dir"
  let command_line = command_line ++ (space ∷ [])
  directory ← wide run_dir
  let command_line = append_quoted command_line directory
  inr (command_line ++ (0 ∷ []))

unfoldable pub nul_terminated : Text → IoResult Text
nul_terminated value = do units ← wide value; inr (units ++ (0 ∷ []))
