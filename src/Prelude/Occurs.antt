-- ===== src/Prelude/Occurs.antt =====
-- Occurrences of a text in a text: the standard library's `windows`, and where a text occurs in
-- the concatenation of what came earlier and what comes now.
use Prim.Native.Nat.{ℕ, suc, ◌+◌, ◌-◌, ◌≤◌}
use mathlib.Core.Path.{◌≡◌, refl, sym, ap, ◌∙◌}
use mathlib.Core.Logic.{inl, inr}
use mathlib.Core.Bool.{Bool, true}
use mathlib.Core.List.{List, [], ◌∷◌, ◌++◌, append_assoc}
use native.Mathlib.Omega.{arith}
use procherd.Prelude.Tests.{leb, if◌then◌else◌, Bool-cases}
use procherd.Prelude.Lists.{length, take, drop, any, length-append, take-append-drop}
use procherd.Prelude.Texts.{Text, text_eq, text_eq→eq, text_eq_refl}

-- `needle` is a contiguous part of `haystack`.
abbrev pub Occurs : Text → Text → Type 0
Occurs needle haystack = (pre : Text) × (post : Text) × (haystack ≡ pre ++ (needle ++ post))

-- slice::windows, for a positive width.
unfoldable pub windows : ℕ → Text → List Text
windows k [] = []
windows k (c ∷ s) =
    let rest = windows k s in if leb k (length (c ∷ s)) then take k (c ∷ s) ∷ rest else []

abbrev pub any_window : Text → Text → Bool
any_window s needle = any (λ w. text_eq w needle) (windows (length needle) s)

Occurs-cons : (needle s : Text) (c : ℕ) → Occurs needle s → Occurs needle (c ∷ s)
Occurs-cons needle s c (pre, post, e) = (c ∷ pre, post, ap (λ r. c ∷ r) e)

take_prefix : (needle post : Text) → take (length needle) (needle ++ post) ≡ needle
take_prefix [] post = refl
take_prefix (c ∷ n) post = ap (λ r. c ∷ r) (take_prefix n post)

at_start :
    (s needle : Text)
    → text_eq (take (length needle) s) needle ≡ true
    → s ≡ needle ++ drop (length needle) s
at_start s needle h =
    sym (take-append-drop (length needle) s)
    ∙ ap (λ (w : Text). w ++ drop (length needle) s) (text_eq→eq _ needle h)

pub any_window-Occurs : (s needle : Text) → any_window s needle ≡ true → Occurs needle s
unfolding windows
any_window-Occurs [] needle h = cc
any_window-Occurs (c ∷ s) needle h = elim (Bool-cases (leb (length needle) (length (c ∷ s)))) [
  | inr short ↦ absurd (ground (arith, rw short at h))
  | inl fits ↦ elim (Bool-cases (text_eq (take (length needle) (c ∷ s)) needle)) [
    | inl here ↦ ([], drop (length needle) (c ∷ s), at_start (c ∷ s) needle here)
    | inr miss ↦ Occurs-cons needle s c (any_window-Occurs s needle (rw (fits, miss) at h))
  ]
]

window_at :
    (n : ℕ) (needle pre post : Text)
    → length needle ≡ suc n
    → any_window (pre ++ (needle ++ post)) needle ≡ true
unfolding windows
window_at n [] pre post e = absurd (omega arith)
window_at n (c ∷ needle) [] post e =
    ground
      (arith, take_prefix (c ∷ needle) post, text_eq_refl (c ∷ needle), length-append needle post)
window_at n (c ∷ needle) (p ∷ pre) post e = ground (
  arith,
  window_at n (c ∷ needle) pre post,
  length-append pre ((c ∷ needle) ++ post),
  length-append needle post,
)

pub Occurs-any_window :
    (s needle : Text) → 1 ≤ length needle → Occurs needle s → any_window s needle ≡ true
Occurs-any_window s needle h (pre, post, e) =
    rw e (window_at (length needle - 1) needle pre post (omega arith))

pub Occurs-append : (needle s t : Text) → Occurs needle s → Occurs needle (s ++ t)
Occurs-append needle s t (pre, post, e) = (pre, post ++ t, rw e (simp append_assoc))

pub Occurs-prepend : (needle s t : Text) → Occurs needle t → Occurs needle (s ++ t)
Occurs-prepend needle s t (pre, post, e) = (s ++ pre, post, rw e (simp append_assoc))

-- A text that begins a concatenation, and is no longer than its first part, begins that part.
prefix_of_shorter :
    (n b m c : Text) → n ++ b ≡ m ++ c → length n ≤ length m → (r : Text) × (m ≡ n ++ r)
prefix_of_shorter [] b m c e h = (m, refl)
prefix_of_shorter (x ∷ n) b [] c e h = absurd (omega arith)
prefix_of_shorter (x ∷ n) b (y ∷ m) c e h =
    let (r, p) = prefix_of_shorter n b m c (cc) (omega arith) in (r, cc)

split_at :
    (needle pre tail bytes a b : Text)
    → pre ++ (tail ++ bytes) ≡ a ++ (needle ++ b)
    → length needle ≤ length tail + 1
    → ¬ Occurs needle (pre ++ tail)
    → Occurs needle (tail ++ bytes)
split_at needle [] tail bytes a b e h absent = (a, b, e)
split_at needle (p ∷ pre) tail bytes [] b e h absent =
    let (r, q) =
      prefix_of_shorter needle b ((p ∷ pre) ++ tail) bytes
        (sym e ∙ sym (append_assoc (p ∷ pre) tail bytes)) (omega (arith, length-append pre tail)) in
    absurd (absent ([], r, q))
split_at needle (p ∷ pre) tail bytes (x ∷ a) b e h absent =
    split_at needle pre tail bytes a b (cc) h (λ o. absent (Occurs-cons needle (pre ++ tail) p o))

-- An occurrence in what came earlier followed by what comes now, that is not in what came earlier,
-- lies in the kept end of what came earlier followed by what comes now.
pub Occurs-tail :
    (needle pre tail bytes : Text)
    → length needle ≤ length tail + 1
    → ¬ Occurs needle (pre ++ tail)
    → Occurs needle ((pre ++ tail) ++ bytes)
    → Occurs needle (tail ++ bytes)
Occurs-tail needle pre tail bytes h absent (a, b, e) =
    split_at needle pre tail bytes a b (sym (append_assoc pre tail bytes) ∙ e) h absent
