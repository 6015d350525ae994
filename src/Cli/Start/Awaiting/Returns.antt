-- ===== src/Cli/Start/Awaiting/Returns.antt =====
-- src/cli.rs: when the loop of `start` returns, and when it asks its run to stop. Proofs.
use mathlib.Core.Path.{subst}
use procherd.Prelude.{
  ℕ, ◌+◌, ◌*◌, ◌≤◌, leb, length, ◌++◌, ◌≡◌, ◌≢◌, refl, sym, ap, ◌∙◌, Bool, true, false, ◌||◌,
  Option, none, some, List, [], ◌∷◌, any, arith,
}
use procherd.Prelude.Texts.{Text}
use procherd.Error.{AppError, Result, ok, err, ok_injective}
use procherd.Model.Status.{is_terminal}
use procherd.Model.Run.{RunState, FailureInfo}
use procherd.Model.Documents.{StartResult, StopRequest}
use procherd.Cli.Clock.{Spaced, Spaced-reached}
use procherd.Cli.Start.Awaiting.{
  StartTurn, Step, is_starting, is_failed, after_starting, still_starting, start_step, start_turn,
  seen_after, start_next, start_loop,
}

module _ (shown : FailureInfo → Text) (run_id owner_token : Text) (startup_timeout : ℕ) where
  some≢none : {r : StartResult} → some r ≢ none
  some≢none h = cc

  err≢none : {e : AppError} → ◌≢◌ {A = Result (Option StartResult)} (err e) (ok none)
  err≢none h = cc

  returns_passed :
      (now : ℕ) (seen : Bool) (o : Result (RunState × Bool))
      → (start_turn shown run_id owner_token startup_timeout now true seen o).result ≢ ok none
  unfolding start_turn start_step after_starting still_starting
  returns_passed now seen (err e) h = cc
  returns_passed now seen (ok (state, active)) h =
      go (is_starting state.status) (is_terminal state.status) (is_failed state.status) seen active
        refl refl refl h
    where
      go :
          (g t f seen active : Bool)
          → is_starting state.status ≡ g
          → is_terminal state.status ≡ t
          → is_failed state.status ≡ f
          → (start_step shown run_id owner_token startup_timeout now true
              (seen || active)
              state
              active).result
            ≢ ok none
      go true t f true true e a b h = cc (rw e at h)
      go true t f true false e a b h = cc (rw e at h)
      go true t f false true e a b h = err≢none (rw e at h)
      go true t f false false e a b h = err≢none (rw e at h)
      go false true f seen true e a b h = err≢none (rw (e, a) at h)
      go false true true seen false e a b h = cc (rw (e, a, b) at h)
      go false true false seen false e a b h =
          some≢none (ok_injective (some _) none (rw (e, a, b) at h))
      go false false true seen active e a b h = cc (rw (e, a, b) at h)
      go false false false seen true e a b h =
          some≢none (ok_injective (some _) none (rw (e, a, b) at h))
      go false false false seen false e a b h = cc (rw (e, a, b) at h)

  next-returns :
      (passed : Bool) (r : Result (Option StartResult)) (this rest : Step)
      → this.result ≡ r
      → (passed ≡ true → r ≢ ok none)
      → (passed ≡ false → rest.result ≢ ok none)
      → (start_next shown run_id owner_token startup_timeout r this rest).result ≢ ok none
  unfolding start_next
  next-returns true (ok none) this rest e g k h = g refl refl
  next-returns false (ok none) this rest e g k h = k refl h
  next-returns passed (ok (some r)) this rest e g k h =
      some≢none (ok_injective (some r) none (sym e ∙ h))
  next-returns passed (err x) this rest e g k h = cc (sym e ∙ h)

  loop-returns :
      (started now : ℕ) (seen : Bool) (ts : List StartTurn)
      → any (λ (t : StartTurn). leb (started + startup_timeout) t.clock) ts ≡ true
      → (start_loop shown run_id owner_token startup_timeout started now seen ts).result ≢ ok none
  unfolding start_loop
  loop-returns started now seen [] a = cc
  loop-returns started now seen (t ∷ ts) a =
      let passed = leb (started + startup_timeout) t.clock in
      next-returns passed _
        (start_turn shown run_id owner_token startup_timeout now passed seen t.observed) _ refl
        (λ p h. returns_passed now seen t.observed (
          subst
            (λ b.
              (start_turn shown run_id owner_token startup_timeout now b seen t.observed).result
              ≡ ok none)
            p h))
        (λ p.
          loop-returns started now
            (seen_after shown run_id owner_token startup_timeout seen t.observed) ts (rw p at a))

  -- An iteration that asks the run to stop has reached the deadline, and does not go on.
  Asks : Bool → Step → Type 0
  Asks passed s = (q : StopRequest) → s.request ≡ some q → passed ≡ true

  turn-Asks :
      (now : ℕ) (passed seen : Bool) (o : Result (RunState × Bool))
      → Asks passed (start_turn shown run_id owner_token startup_timeout now passed seen o)
  unfolding Asks start_turn start_step after_starting still_starting
  turn-Asks now true seen o q h = refl
  turn-Asks now false seen (err e) q h = cc
  turn-Asks now false seen (ok (state, active)) q h = ground arith

  -- The iteration in which the run is asked to stop: those before it went on, and it reads the clock
  -- after the whole timeout.
  abbrev pub AsksAt : ℕ → ℕ → Bool → List StartTurn → Type 0
  AsksAt started now seen ts =
      (before : List StartTurn) × (t : StartTurn) × (after : List StartTurn) × (ts
        ≡ before ++ t ∷ after)
      × ((start_loop shown run_id owner_token startup_timeout started now seen before).result
          ≡ ok none)
      × (leb (started + startup_timeout) t.clock ≡ true)

  next-AsksAt :
      (started now : ℕ) (seen : Bool) (t : StartTurn) (ts : List StartTurn)
      (r : Result (Option StartResult)) (rest : Step) (q : StopRequest)
      → (start_turn shown run_id owner_token startup_timeout now
          (leb (started + startup_timeout) t.clock)
          seen
          t.observed).result
        ≡ r
      → (start_next shown run_id owner_token startup_timeout r
          (start_turn shown run_id owner_token startup_timeout now
            (leb (started + startup_timeout) t.clock)
            seen
            t.observed)
          rest).request
        ≡ some q
      → (rest.request ≡ some q
          → AsksAt started now
              (seen_after shown run_id owner_token startup_timeout seen t.observed)
              ts)
      → AsksAt started now seen (t ∷ ts)
  unfolding start_next start_loop Asks
  next-AsksAt started now seen t ts (ok none) rest q e h k =
      let (before, x, later, s, n, l) = k h in (t ∷ before, x, later, ap (λ r. t ∷ r) s, rw e n, l)
  next-AsksAt started now seen t ts (ok (some r)) rest q e h k = (
    [],
    t,
    ts,
    refl,
    refl,
    turn-Asks now (leb (started + startup_timeout) t.clock) seen t.observed q h,
  )
  next-AsksAt started now seen t ts (err x) rest q e h k = (
    [],
    t,
    ts,
    refl,
    refl,
    turn-Asks now (leb (started + startup_timeout) t.clock) seen t.observed q h,
  )

  loop-AsksAt :
      (started now : ℕ) (seen : Bool) (ts : List StartTurn) (q : StopRequest)
      → (start_loop shown run_id owner_token startup_timeout started now seen ts).request ≡ some q
      → AsksAt started now seen ts
  unfolding start_loop
  loop-AsksAt started now seen [] q h = cc
  loop-AsksAt started now seen (t ∷ ts) q h = next-AsksAt started now seen t ts _ _ q refl h (
      loop-AsksAt started now (seen_after shown run_id owner_token startup_timeout seen t.observed)
        ts q)

  -- The loop of `start`, with a clock that does not go back and iterations that are 10 ms apart at
  -- least, returns a result or an error within one more iterations than there are such intervals in
  -- the timeout, whatever they read and even if the run never leaves its first states; and it asks
  -- the run to stop only in an iteration that reads the clock after the whole timeout.
  pub start_loop-returns :
      (started now : ℕ) (seen : Bool) (ts : List StartTurn)
      → Spaced (λ (t : StartTurn). t.clock) 10 started ts
      → startup_timeout + 10 ≤ 10 * length ts
      → ((start_loop shown run_id owner_token startup_timeout started now seen ts).result ≢ ok none)
        × ((q : StopRequest)
            → (start_loop shown run_id owner_token startup_timeout started now seen ts).request
              ≡ some q
            → AsksAt started now seen ts)
  start_loop-returns started now seen ts spaced enough = (
    loop-returns started now seen ts (
        Spaced-reached (λ (t : StartTurn). t.clock) 10 (started + startup_timeout) started ts spaced
          (omega arith) (omega arith)),
    loop-AsksAt started now seen ts,
  )
