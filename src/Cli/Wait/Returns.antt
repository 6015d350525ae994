-- ===== src/Cli/Wait/Returns.antt =====
-- src/cli.rs: when `wait` returns, and when it gives up. Proofs.
use procherd.Prelude.{
  ℕ, ◌+◌, ◌*◌, ◌≤◌, ◌≡◌, ◌≢◌, refl, sym, Bool, true, false, Option, none, some, List, ◌∷◌, ◌++◌,
  ◌||◌, leb, ltb, ◌==◌, length, arith, inl, inr,
}
use procherd.Prelude.Texts.{Text}
use procherd.Error.{
  AppError, Kind, Result, ok, err, >>=-eq-ok, >>=-eq-err, ok_injective, refuse_if, refuse_if-err,
  usage_error, operational,
}
use procherd.Model.Status.{WaitCondition, is_terminal}
use procherd.Model.Readiness.{ReadinessStatus, not_configured, pending, ready, timed_out, failed}
use procherd.Model.Documents.{RunView, WaitResult}
use procherd.Cli.Clock.{
  Spaced, Spaced-reached, is_timeout, is_timeout-err, until_some-returns, until_some-err,
}
use procherd.Cli.Wait.{
  Reading, wait_check, satisfied, ready_reached, readiness_ended, is_orphaned, wait_next, wait_step,
  wait, none≢some,
}

-- An iteration at the deadline ends the loop.
wait_next-returns :
    (run_id : Text) (condition : WaitCondition) (timeout : ℕ) (view : RunView) (reached : Bool)
    → wait_next run_id condition timeout true view reached ≢ ok none
unfolding wait_next
wait_next-returns run_id condition timeout view false h = cc
wait_next-returns run_id condition timeout view true h =
    none≢some (sym (ok_injective (some _) none h))

wait_step-returns :
    (run_id : Text) (condition : WaitCondition) (timeout deadline : ℕ) (x : Reading)
    → leb deadline x.1 ≡ true
    → wait_step run_id condition timeout deadline x ≢ ok none
unfolding wait_step
wait_step-returns run_id condition timeout deadline (read, now) late h =
    let (view, _, h) = >>=-eq-ok read _ h in
    let (reached, _, h) = >>=-eq-ok (wait_check run_id condition view) _ h in
    wait_next-returns run_id condition timeout view reached (rw late at h)

-- The checks of an iteration do not fail with a timeout.
ready_reached-kind :
    (run_id : Text) (view : RunView) (s : ReadinessStatus) (e : AppError)
    → ready_reached run_id view s ≡ err e
    → e.kind ≢ Kind.timeout
unfolding ready_reached readiness_ended usage_error operational
ready_reached-kind run_id view ready e h k = cc
ready_reached-kind run_id view not_configured e h k = cc
ready_reached-kind run_id view timed_out e h k = cc
ready_reached-kind run_id view failed e h k = cc
ready_reached-kind run_id view pending e h k =
    elim (>>=-eq-err (refuse_if (is_terminal view.state.status) _) _ h) [
      | inl r ↦ cc (refuse_if-err _ _ e r)
      | inr (_, _, h) ↦ cc
    ]

satisfied-kind :
    (run_id : Text) (condition : WaitCondition) (view : RunView) (e : AppError)
    → satisfied run_id condition view ≡ err e
    → e.kind ≢ Kind.timeout
unfolding satisfied
satisfied-kind run_id WaitCondition.running view e h k = cc
satisfied-kind run_id WaitCondition.exit view e h k = cc
satisfied-kind run_id WaitCondition.ready view e h k = ready_reached-kind run_id view _ e h k

wait_check-kind :
    (run_id : Text) (condition : WaitCondition) (view : RunView) (e : AppError)
    → wait_check run_id condition view ≡ err e
    → e.kind ≢ Kind.timeout
unfolding wait_check operational
wait_check-kind run_id condition view e h k =
    elim (>>=-eq-err (refuse_if (is_orphaned view.observed_status) _) _ h) [
      | inl r ↦ cc (refuse_if-err _ _ e r)
      | inr (_, _, h) ↦ satisfied-kind run_id condition view e h k
    ]

wait_next-late :
    (run_id : Text) (condition : WaitCondition) (timeout : ℕ) (late : Bool) (view : RunView)
    (reached : Bool) (e : AppError)
    → wait_next run_id condition timeout late view reached ≡ err e
    → late ≡ true
unfolding wait_next
wait_next-late run_id condition timeout late view true e h = cc
wait_next-late run_id condition timeout true view false e h = refl
wait_next-late run_id condition timeout false view false e h = cc

wait_step-late :
    (run_id : Text) (condition : WaitCondition) (timeout deadline : ℕ) (x : Reading) (e : AppError)
    → wait_step run_id condition timeout deadline x ≡ err e
    → e.kind ≡ Kind.timeout
    → (is_timeout x.0 || leb deadline x.1) ≡ true
unfolding wait_step
wait_step-late run_id condition timeout deadline (read, now) e h k = elim (>>=-eq-err read _ h) [
  | inl r ↦ rw (is_timeout-err read e r k) refl
  | inr (view, _, h) ↦ elim (>>=-eq-err (wait_check run_id condition view) _ h) [
    | inl c ↦ absurd (wait_check-kind run_id condition view e c k)
    | inr (reached, _, h) ↦
        let late = wait_next-late run_id condition timeout (leb deadline now) view reached e h in
        ground arith
  ]
]

-- What an error of the kind timeout says: the iterations before the last one went on, and the last
-- one read such an error, or the clock after the whole timeout.
abbrev pub GivesUp : Text → WaitCondition → ℕ → ℕ → List Reading → Type 0
GivesUp run_id condition timeout started readings =
    (before : List Reading) × (x : Reading) × (after : List Reading) × (readings
      ≡ before ++ x ∷ after)
    × (wait run_id condition timeout started before ≡ ok none)
    × ((is_timeout x.0 || leb (started + timeout) x.1) ≡ true)

-- A wait whose clock does not go back and whose iterations are 50 ms apart returns a result or an
-- error within one more iterations than there are such intervals in its timeout, whatever they read;
-- and it gives up with a timeout only in an iteration that reads the clock after the whole timeout,
-- or whose view was not read for a timeout.
pub wait-returns :
    (run_id : Text) (condition : WaitCondition) (timeout started : ℕ) (readings : List Reading)
    → Spaced (λ (x : Reading). x.1) 50 started readings
    → timeout + 50 ≤ 50 * length readings
    → (wait run_id condition timeout started readings ≢ ok none)
      × ((e : AppError)
          → wait run_id condition timeout started readings ≡ err e
          → e.kind ≡ Kind.timeout
          → GivesUp run_id condition timeout started readings)
unfolding wait usage_error
wait-returns run_id condition timeout started readings spaced enough = (
  λ h.
      let (_, _, h) = >>=-eq-ok (refuse_if ((timeout == 0) || ltb 86400000 timeout) _) _ h in
      until_some-returns step (λ x. leb (started + timeout) x.1)
        (wait_step-returns run_id condition timeout (started + timeout)) readings
        (Spaced-reached (λ (x : Reading). x.1) 50 (started + timeout) started readings spaced
          (omega arith) (omega arith))
        h,
  λ e h k. elim (>>=-eq-err (refuse_if ((timeout == 0) || ltb 86400000 timeout) _) _ h) [
    | inl r ↦ cc (refuse_if-err _ _ e r)
    | inr (u, g, h) ↦
        let (before, x, after, q, n, f) = until_some-err step readings e h in
        (
          before,
          x,
          after,
          q,
          rw g n,
          wait_step-late run_id condition timeout (started + timeout) x e f k,
        )
  ],
)
  where
    step : Reading → Result (Option WaitResult)
    step = wait_step run_id condition timeout (started + timeout)
