-- ===== src/Leases/Placeholders.antt =====
-- src/leases.rs: `replace_placeholders`, on Unix. The two maps are in the order of their keys.
use mathlib.Core.Path.{subst}
use procherd.Prelude.{
  ℕ, zero, suc, ◌-◌, ◌≡◌, refl, Bool, true, false, ◌||◌, List, [], ◌∷◌, ◌++◌, length, is_some,
}
use procherd.Prelude.Texts.{Text, codes, text, format, strip_prefix, text_eq}
use procherd.Prelude.Occurs.{any_window, windows}
use procherd.Error.{Result, ok, ◌>>◌, refuse_if, refuse_if-ok, >>=-eq-ok, ok_injective, usage_error}

-- str::replace with a pattern that is not empty; `skip` bytes of a match are left.
replace_from : ℕ → Text → Text → Text → Text
replace_from skip pattern to [] = []
replace_from (suc skip) pattern to (c ∷ s) = replace_from skip pattern to s
replace_from zero pattern to (c ∷ s) = elim (is_some (strip_prefix pattern (c ∷ s))) [
  | true ↦ to ++ replace_from (length pattern - 1) pattern to s
  | false ↦ c ∷ replace_from zero pattern to s
]

unfoldable pub replace : Text → Text → Text → Text
unfolding replace_from
replace = replace_from 0

abbrev pub placeholder : Text → Text → Text
placeholder kind name = codes "{" ++ (kind ++ (codes ":" ++ (name ++ codes "}")))

-- The loop over a map.
unfoldable pub replace_all : Text → List (Text × Text) → Text → Text
unfolding replace
replace_all kind [] value = value
replace_all kind ((name, to) ∷ entries) value =
    replace_all kind entries (replace (placeholder kind name) to value)

abbrev pub has_placeholder : Text → Bool
has_placeholder s = any_window s (codes "{port:") || any_window s (codes "{temp:")

unfoldable pub replace_placeholders : Text → List (Text × Text) → List (Text × Text) → Result Text
replace_placeholders value ports temp_directories = do
  let result = replace_all (codes "temp") temp_directories (replace_all (codes "port") ports value)
  refuse_if (has_placeholder result) (
      usage_error (
        format "argument contains an unknown or unterminated lease placeholder: {}"
          (text value ∷ [])))
  ok result

-- A replaced argument holds no beginning of a placeholder.
pub replace_placeholders-none :
    (value : Text) (ports temps : List (Text × Text)) (result : Text)
    → replace_placeholders value ports temps ≡ ok result
    → has_placeholder result ≡ false
unfolding replace_placeholders
replace_placeholders-none value ports temps result h =
    let r = replace_all (codes "temp") temps (replace_all (codes "port") ports value) in
    let (_, e, h) = >>=-eq-ok (refuse_if (has_placeholder r) _) _ h in
    subst (λ s. has_placeholder s ≡ false) (ok_injective r result h)
      (refuse_if-ok (has_placeholder r) _ e)

replace_placeholders_runs :
    replace_placeholders
      (codes "--port={port:web}/{temp:a}")
      ((codes "web", codes "8001") ∷ [])
      ((codes "a", codes "/t/a") ∷ [])
    ≡ ok (codes "--port=8001//t/a")
unfolding replace_placeholders replace_all windows strip_prefix text_eq
replace_placeholders_runs = refl
