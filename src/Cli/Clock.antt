-- ===== src/Cli/Clock.antt =====
-- src/cli.rs: the loops that wait, and the readings of `Instant::now()` that they compare with a
-- deadline, in milliseconds.
use native.Mathlib.Nat.{mul-suc}
use procherd.Prelude.{
  ℕ, ◌+◌, ◌*◌, ◌≤◌, ◌<◌, ◌≡◌, ◌≢◌, refl, sym, ap, ◌∙◌, Bool, true, false, Option, none, some, List,
  [], ◌∷◌, ◌++◌, any, leb, length, arith, Bool-cases, inl, inr,
}
use procherd.Error.{AppError, Kind, Result, ok, err, ◌>>=◌, >>=-eq-ok, >>=-eq-err, ok_injective}

-- A loop whose iterations return a value, fail or go on with `none`, over what its iterations read;
-- `none` if it has not returned after them.
unfoldable pub until_some {ℓ κ} :
    {X : Type ℓ} {W : Type κ} → (X → Result (Option W)) → List X → Result (Option W)
until_some step [] = ok none
until_some step (x ∷ xs) = do
  r ← step x
  elim r [ none ↦ until_some step xs | some w ↦ ok (some w) ]

module _ {X : Type 0} (clock : X → ℕ) where
  -- Successive readings of a clock that does not go back, where a sleep of `gap` lies between two.
  abbrev pub Spaced : ℕ → ℕ → List X → Type 0
  Spaced gap earliest [] = Unit
  Spaced gap earliest (x ∷ later) = (earliest ≤ clock x) × Spaced gap (clock x + gap) later

  -- So many readings reach a deadline.
  pub Spaced-reached :
      (gap deadline earliest : ℕ) (readings : List X)
      → Spaced gap earliest readings
      → earliest < deadline + gap
      → deadline + gap ≤ earliest + gap * length readings
      → any (λ x. leb deadline (clock x)) readings ≡ true
  Spaced-reached gap deadline earliest [] s b e = absurd (omega arith)
  Spaced-reached gap deadline earliest (x ∷ later) s b e =
      elim (Bool-cases (leb deadline (clock x))) [
        | inl r ↦ rw r refl
        | inr r ↦ rw r (
            let m = mul-suc gap (length later) in
            let early : clock x < deadline = ground arith in
            Spaced-reached gap deadline (clock x + gap) later s.1 (omega arith)
              (omega (arith, s.0, m)))
      ]

abbrev is_timeout_kind : Kind → Bool
is_timeout_kind Kind.timeout = true
is_timeout_kind _ = false

-- What was read failed with an error of the kind timeout.
abbrev pub is_timeout {ℓ} : {A : Type ℓ} → Result A → Bool
is_timeout (ok a) = false
is_timeout (err e) = is_timeout_kind e.kind

pub is_timeout-err {ℓ} :
    {A : Type ℓ} (r : Result A) (e : AppError)
    → r ≡ err e
    → e.kind ≡ Kind.timeout
    → is_timeout r ≡ true
is_timeout-err (ok a) e h k = cc
is_timeout-err (err x) e h k = cc

none≢some {ℓ} : {A : Type ℓ} {a : A} → none ≢ some a
none≢some h = cc

module _ {X W : Type 0} (step : X → Result (Option W)) where
  pub until_some-found :
      (xs : List X) (w : W) → until_some step xs ≡ ok (some w) → (x : X) × (step x ≡ ok (some w))
  unfolding until_some
  until_some-found [] w h = absurd (none≢some (ok_injective none (some w) h))
  until_some-found (x ∷ xs) w h =
      let (r, e, h) = >>=-eq-ok (step x) _ h in go r e h (until_some-found xs w)
    where
      go :
          (r : Option W)
          → step x ≡ ok r
          → (elim r [ none ↦ until_some step xs | some w ↦ ok (some w) ]) ≡ ok (some w)
          → (until_some step xs ≡ ok (some w) → (x : X) × (step x ≡ ok (some w)))
          → (x : X) × (step x ≡ ok (some w))
      go none e h k = k h
      go (some v) e h k = (x, e ∙ h)

  pub until_some-returns :
      (late : X → Bool)
      → ((x : X) → late x ≡ true → step x ≢ ok none)
      → (xs : List X) → any late xs ≡ true
      → until_some step xs ≢ ok none
  unfolding until_some
  until_some-returns late ends [] l h = cc
  until_some-returns late ends (x ∷ xs) l h =
      let (r, e, h) = >>=-eq-ok (step x) _ h in go r e h (until_some-returns late ends xs)
    where
      go :
          (r : Option W)
          → step x ≡ ok r
          → (elim r [ none ↦ until_some step xs | some w ↦ ok (some w) ]) ≡ ok none
          → (any late xs ≡ true → until_some step xs ≢ ok none)
          → ⊥
      go none e h k = elim (Bool-cases (late x)) [ inl y ↦ ends x y e | inr y ↦ k (rw y at l) h ]
      go (some w) e h k = none≢some (sym (ok_injective (some w) none h))

  -- The iteration of which an error is.
  abbrev pub FailsAt : List X → AppError → Type 0
  FailsAt xs e =
      (before : List X) × (x : X) × (after : List X) × (xs ≡ before ++ x ∷ after)
      × (until_some step before ≡ ok none)
      × (step x ≡ err e)

  pub until_some-err : (xs : List X) (e : AppError) → until_some step xs ≡ err e → FailsAt xs e
  unfolding until_some
  until_some-err [] e h = cc
  until_some-err (x ∷ xs) e h = elim (>>=-eq-err (step x) _ h) [
    | inl s ↦ ([], x, xs, refl, refl, s)
    | inr (r, s, h) ↦ go r s h (until_some-err xs e)
  ]
    where
      go :
          (r : Option W)
          → step x ≡ ok r
          → (elim r [ none ↦ until_some step xs | some w ↦ ok (some w) ]) ≡ err e
          → (until_some step xs ≡ err e → FailsAt xs e)
          → FailsAt (x ∷ xs) e
      go none s h k =
          let (before, y, after, q, n, f) = k h in
          (x ∷ before, y, after, ap (λ r. x ∷ r) q, rw s n, f)
      go (some w) s h k = cc
