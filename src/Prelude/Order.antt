-- ===== src/Prelude/Order.antt =====
-- The order of texts, `sort_unstable`, `dedup` and `BTreeMap` of the standard library on them.
use mathlib.Core.Path.{◌≡◌, refl, ap, ◌∙◌}
use mathlib.Core.Logic.{inl, inr}
use mathlib.Core.Bool.{Bool, true, false, ◌||◌, ◌&&◌}
use mathlib.Core.Option.{Option, none, some}
use mathlib.Core.List.{List, [], ◌∷◌}
use native.Mathlib.Omega.{arith}
use procherd.Prelude.Tests.{ltb, ◌==◌, if◌then◌else◌, Bool-cases}
use procherd.Prelude.Lists.{any, All, All-map_of}
use procherd.Prelude.Texts.{Text, text_eq, text_eq→eq}

-- `<` on texts, by their bytes.
unfoldable pub text_lt : Text → Text → Bool
text_lt s [] = false
text_lt [] (_ ∷ _) = true
text_lt (a ∷ s) (b ∷ t) = ltb a b || (a == b && text_lt s t)

pub text_lt_irrefl : (s : Text) → text_lt s s ≡ false
unfolding text_lt
text_lt_irrefl [] = refl
text_lt_irrefl (a ∷ s) = ground (arith, text_lt_irrefl s)

pub text_lt_trans : (s t u : Text) → text_lt s t ≡ true → text_lt t u ≡ true → text_lt s u ≡ true
unfolding text_lt
text_lt_trans s t [] h k = cc
text_lt_trans s [] (c ∷ u) h k = cc
text_lt_trans [] (b ∷ t) (c ∷ u) h k = refl
text_lt_trans (a ∷ s) (b ∷ t) (c ∷ u) h k = ground (arith, text_lt_trans s t u)

text_lt-asym : (s t : Text) → text_lt s t ≡ true → text_lt t s ≡ false
unfolding text_lt
text_lt-asym s [] h = cc
text_lt-asym [] (b ∷ t) h = refl
text_lt-asym (a ∷ s) (b ∷ t) h = ground (arith, text_lt-asym s t)

insert_sorted : Text → List Text → List Text
insert_sorted x [] = x ∷ []
insert_sorted x (y ∷ ys) =
    let rest = insert_sorted x ys in if text_lt y x then y ∷ rest else x ∷ y ∷ ys

-- `sort_unstable`: equal texts are the same, so that every sorting has this result.
unfoldable pub sort : List Text → List Text
unfolding insert_sorted
sort [] = []
sort (x ∷ xs) = insert_sorted x (sort xs)

-- `Vec::dedup`
unfoldable pub dedup : List Text → List Text
dedup [] = []
dedup (x ∷ []) = x ∷ []
dedup (x ∷ y ∷ ys) = let rest = dedup (y ∷ ys) in if text_eq x y then rest else x ∷ rest

-- No later text is less than an earlier one.
abbrev pub Sorted : List Text → Type 0
Sorted [] = Unit
Sorted (x ∷ xs) = All (λ y. text_lt y x ≡ false) xs × Sorted xs

-- Whether a text is among others.
abbrev pub is_among : Text → List Text → Bool
is_among x = any (text_eq x)

insert_sorted-All :
    (P : Text → Type 0) (x : Text) (ys : List Text) → P x → All P ys → All P (insert_sorted x ys)
unfolding insert_sorted
insert_sorted-All P x [] p h = (p, tt)
insert_sorted-All P x (y ∷ ys) p h = elim (Bool-cases (text_lt y x)) [
  | inl e ↦ rw e (h.0, insert_sorted-All P x ys p h.1)
  | inr e ↦ rw e (p, h)
]

not_less : (x y z : Text) → text_lt y x ≡ false → text_lt z y ≡ false → text_lt z x ≡ false
unfolding text_lt
not_less x [] [] h k = h
not_less x (b ∷ y) [] h k = cc
not_less [] y (c ∷ z) h k = refl
not_less (a ∷ x) [] (c ∷ z) h k = cc
not_less (a ∷ x) (b ∷ y) (c ∷ z) h k = ground (arith, not_less x y z)

insert_sorted-Sorted : (x : Text) (ys : List Text) → Sorted ys → Sorted (insert_sorted x ys)
unfolding insert_sorted
insert_sorted-Sorted x [] s = (tt, tt)
insert_sorted-Sorted x (y ∷ ys) s = elim (Bool-cases (text_lt y x)) [
  | inl e ↦ rw e (
    insert_sorted-All (λ z. text_lt z y ≡ false) x ys (text_lt-asym y x e) s.0,
    insert_sorted-Sorted x ys s.1,
  )
  | inr e ↦ rw e ((e, All-map_of _ _ ys (λ z h. not_less x y z e h) s.0), s)
]

pub sort-Sorted : (xs : List Text) → Sorted (sort xs)
unfolding sort
sort-Sorted [] = tt
sort-Sorted (x ∷ xs) = insert_sorted-Sorted x (sort xs) (sort-Sorted xs)

insert_sorted-is_among :
    (z x : Text) (ys : List Text) → is_among z (insert_sorted x ys) ≡ is_among z (x ∷ ys)
unfolding insert_sorted
insert_sorted-is_among z x [] = refl
insert_sorted-is_among z x (y ∷ ys) = elim (Bool-cases (text_lt y x)) [
  | inl e ↦ rw (e, insert_sorted-is_among z x ys) (ground arith)
  | inr e ↦ rw e refl
]

-- Sorting loses and adds nothing.
pub sort-is_among : (z : Text) (xs : List Text) → is_among z (sort xs) ≡ is_among z xs
unfolding sort
sort-is_among z [] = refl
sort-is_among z (x ∷ xs) =
    insert_sorted-is_among z x (sort xs) ∙ ap (λ b. text_eq z x || b) (sort-is_among z xs)

pub sort-All : (P : Text → Type 0) (xs : List Text) → All P xs → All P (sort xs)
unfolding sort
sort-All P [] h = tt
sort-All P (x ∷ xs) h = insert_sorted-All P x (sort xs) h.0 (sort-All P xs h.1)

pub dedup-is_among : (z : Text) (xs : List Text) → is_among z (dedup xs) ≡ is_among z xs
unfolding dedup
dedup-is_among z [] = refl
dedup-is_among z (x ∷ []) = refl
dedup-is_among z (x ∷ y ∷ ys) = elim (Bool-cases (text_eq x y)) [
  | inl e ↦ rw (e, dedup-is_among z (y ∷ ys), text_eq→eq x y e) (ground arith)
  | inr e ↦ rw (e, dedup-is_among z (y ∷ ys)) refl
]

dedup-All : (P : Text → Type 0) (xs : List Text) → All P xs → All P (dedup xs)
unfolding dedup
dedup-All P [] h = tt
dedup-All P (x ∷ []) h = h
dedup-All P (x ∷ y ∷ ys) h = elim (Bool-cases (text_eq x y)) [
  | inl e ↦ rw e (dedup-All P (y ∷ ys) h.1)
  | inr e ↦ rw e (h.0, dedup-All P (y ∷ ys) h.1)
]

-- Every earlier text is less than every later one.
abbrev pub StrictlySorted : List Text → Type 0
StrictlySorted [] = Unit
StrictlySorted (x ∷ xs) = All (λ y. text_lt x y ≡ true) xs × StrictlySorted xs

lt_of_ne : (x y : Text) → text_lt y x ≡ false → text_eq x y ≡ false → text_lt x y ≡ true
unfolding text_lt text_eq
lt_of_ne [] [] h k = cc
lt_of_ne [] (b ∷ t) h k = refl
lt_of_ne (a ∷ s) [] h k = cc
lt_of_ne (a ∷ s) (b ∷ t) h k = ground (arith, lt_of_ne s t)

lt-le_trans : (x y z : Text) → text_lt x y ≡ true → text_lt z y ≡ false → text_lt x z ≡ true
unfolding text_lt
lt-le_trans x [] z h k = cc
lt-le_trans x (b ∷ y) [] h k = cc
lt-le_trans [] (b ∷ y) (c ∷ z) h k = refl
lt-le_trans (a ∷ x) (b ∷ y) (c ∷ z) h k = ground (arith, lt-le_trans x y z)

-- What is sorted has no duplicates after `dedup`.
pub dedup-StrictlySorted : (xs : List Text) → Sorted xs → StrictlySorted (dedup xs)
unfolding dedup
dedup-StrictlySorted [] s = tt
dedup-StrictlySorted (x ∷ []) s = (tt, tt)
dedup-StrictlySorted (x ∷ y ∷ ys) s = elim (Bool-cases (text_eq x y)) [
  | inl e ↦ rw e (dedup-StrictlySorted (y ∷ ys) s.1)
  | inr e ↦
      let below : text_lt x y ≡ true = lt_of_ne x y s.0.0 e in
      rw e (
        dedup-All (λ z. text_lt x z ≡ true) (y ∷ ys)
            (below, All-map_of _ _ ys (λ z h. lt-le_trans x y z below h) s.1.0),
        dedup-StrictlySorted (y ∷ ys) s.1,
      )
]

-- A `BTreeMap` from texts: its entries in ascending order.
pub map_insert {ℓ} : {A : Type ℓ} → Text → A → List (Text × A) → List (Text × A)
map_insert k v [] = (k, v) ∷ []
map_insert k v ((l, w) ∷ es) =
    let rest = map_insert k v es in
    if text_eq l k then (k, v) ∷ es else if text_lt l k then (l, w) ∷ rest else (k, v) ∷ (l, w) ∷ es

unfoldable pub map_get {ℓ} : {A : Type ℓ} → Text → List (Text × A) → Option A
map_get k [] = none
map_get k ((l, w) ∷ es) = if text_eq l k then some w else map_get k es

collect_into {ℓ} : {A : Type ℓ} → List (Text × A) → List (Text × A) → List (Text × A)
unfolding map_insert
collect_into m [] = m
collect_into m ((k, v) ∷ es) = collect_into (map_insert k v m) es

-- `collect`
unfoldable pub map_collect {ℓ} : {A : Type ℓ} → List (Text × A) → List (Text × A)
unfolding collect_into
map_collect = collect_into []
