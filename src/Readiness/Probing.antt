-- ===== src/Readiness/Probing.antt =====
-- src/readiness.rs: the choice of the next external check. Proofs.
use procherd.Prelude.{
  ℕ, zero, suc, ◌+◌, ◌-◌, ◌%◌, ◌≤◌, ◌<◌, ◌≡◌, true, false, none, some, inl, inr, sym, ap, ◌∙◌, List,
  arith, length, Bool-cases,
}
use native.Mathlib.Nat.{mod-add-mod, mod-lt, mod-eq_of_lt, add-mod_right}
use native.Mathlib.Decide.{dec_le}
use procherd.Model.Readiness.{ReadinessCheck, ReadinessState}
use procherd.Readiness.Tracker.{ReadinessTracker, external_at, find_external, next_external_check}

some_inj : {a b : ℕ} → some a ≡ some b → a ≡ b
some_inj h = cc

none_ne_some : {a : ℕ} → some a ≡ none → ⊥
none_ne_some h = cc

find_external-some :
    (n offset start count : ℕ) (checks : List ReadinessCheck) (i : ℕ)
    → find_external n offset start count checks ≡ some i
    → external_at checks i ≡ true
unfolding find_external
find_external-some zero offset start count checks i h = cc
find_external-some (suc n) offset start count checks i h =
    elim (Bool-cases (external_at checks ((start + offset) % count))) [
      | inl hit ↦ rw (← some_inj (rw hit at h)) hit
      | inr miss ↦ find_external-some n (offset + 1) start count checks i (rw miss at h)
    ]

find_external-none :
    (n offset start count : ℕ) (checks : List ReadinessCheck)
    → find_external n offset start count checks ≡ none
    → (k : ℕ) → offset ≤ k
    → k < offset + n
    → external_at checks ((start + k) % count) ≡ false
unfolding find_external
find_external-none zero offset start count checks h k a b = absurd (omega arith)
find_external-none (suc n) offset start count checks h k a b =
    elim (Bool-cases (external_at checks ((start + offset) % count))) [
      | inl hit ↦ absurd (none_ne_some (rw hit at h))
      | inr miss ↦ elim (dec_le k offset) [
        | yes le ↦ let e : k ≡ offset = omega arith in rw e miss
        | no gt ↦
            find_external-none n (offset + 1) start count checks (rw miss at h) k (omega arith)
              (omega arith)
      ]
    ]

shifted : (start count j k r : ℕ) → start % count + k ≡ r → r % count ≡ j → (start + k) % count ≡ j
shifted start count j k r e m = sym (mod-add-mod start count k) ∙ ap (λ t. t % count) e ∙ m

-- The offset at which the round from `start` reaches the index `j`.
offset_of : (start count j : ℕ) → j < count → (k : ℕ) × (k < count) × ((start + k) % count ≡ j)
offset_of start count j h =
    let small : start % count < count = mod-lt start (omega arith) in
    elim (dec_le (start % count) j) [
      | yes le ↦ (
        j - start % count,
        omega arith,
        shifted start count j (j - start % count) j (omega arith) (mod-eq_of_lt h),
      )
      | no gt ↦ (
        j + count - start % count,
        omega arith,
        shifted start count j (j + count - start % count) (j + count) (omega arith)
            (add-mod_right j count ∙ mod-eq_of_lt h),
      )
    ]

-- `next_external_check` returns a check that is to be probed, whenever there is one.
pub next_external_check_lem :
    (tracker : ReadinessTracker) (state : ReadinessState)
    → ((i : ℕ) → next_external_check tracker state ≡ some i → external_at state.checks i ≡ true)
      × (next_external_check tracker state ≡ none
          → (j : ℕ) → j < length state.checks
          → external_at state.checks j ≡ false)
unfolding next_external_check
next_external_check_lem tracker state = (
  λ i h. find_external-some (length state.checks) 0 tracker.next_probe_index _ state.checks i h,
  λ h j lt.
      let (k, below, e) = offset_of tracker.next_probe_index (length state.checks) j lt in
      rw (← e) (
        find_external-none (length state.checks) 0 tracker.next_probe_index _ state.checks h k
          (omega arith) (omega arith)),
)
