-- ===== src/Prelude/Paths.antt =====
-- Unix paths as the standard library reads them.
use Prim.Native.Nat.{ℕ}
use mathlib.Core.Path.{◌≡◌, refl}
use mathlib.Core.Bool.{Bool, true, false}
use mathlib.Core.List.{List, [], ◌∷◌, ◌++◌}
use procherd.Prelude.Tests.{◌==◌, if◌then◌else◌}
use procherd.Prelude.Lists.{any}
use procherd.Prelude.Texts.{Text, codes, text_eq}

abbrev pub is_absolute : Text → Bool
is_absolute [] = false
is_absolute (c ∷ _) = c == b'/'

abbrev add_to_head : ℕ → List Text → List Text
add_to_head c [] = (c ∷ []) ∷ []
add_to_head c (p ∷ ps) = (c ∷ p) ∷ ps

-- The parts between the slashes.
unfoldable pub split_slash : Text → List Text
split_slash [] = [] ∷ []
split_slash (c ∷ s) =
    let rest = split_slash s in if c == b'/' then [] ∷ rest else add_to_head c rest

-- `Component::ParentDir` among the components.
unfoldable pub has_parent_dir : Text → Bool
unfolding split_slash text_eq
has_parent_dir path = any (λ part. text_eq part (codes "..")) (split_slash path)

abbrev ends_with_slash : Text → Bool
ends_with_slash [] = true
ends_with_slash (c ∷ []) = c == b'/'
ends_with_slash (c ∷ d ∷ s) = ends_with_slash (d ∷ s)

-- Path::join
unfoldable pub join : Text → Text → Text
join base path =
    if is_absolute path
    then path
    else if ends_with_slash base
    then base ++ path
    else base ++ (b'/' ∷ path)

join_runs : join (codes "/srv") (codes "a/ok") ≡ codes "/srv/a/ok"
unfolding join
join_runs = refl

has_parent_dir_runs : has_parent_dir (codes "a/../b") ≡ true
unfolding has_parent_dir
has_parent_dir_runs = refl
