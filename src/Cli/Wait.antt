-- ===== src/Cli/Wait.antt =====
-- src/cli.rs: `wait`. An iteration reads a view and, when the condition does not hold yet, the
-- clock, in milliseconds.
pub mod Returns
use mathlib.Core.Path.{subst}
use procherd.Prelude.{
  ℕ, String, ◌≡◌, ◌≢◌, ◌≤◌, ◌<◌, refl, ap, ◌∙◌, Bool, true, false, not, ◌&&◌, ◌||◌, ◌==◌, Option,
  none, some, List, [], ◌∷◌, arith, ltb, leb, is_some, ◌+◌,
}
use procherd.Prelude.Texts.{Text, codes, text, num, format}
use procherd.Error.{
  AppError, Result, ok, err, ◌>>=◌, ◌>>◌, refuse_if, operational, usage_error, timeout_error,
  readiness_failed, >>=-eq-ok, refuse_if-ok, ok_injective,
}
use procherd.Error
use procherd.Cli.Clock.{until_some, until_some-found}
use procherd.Model.Status.{is_terminal, ObservedStatus, WaitCondition}
use procherd.Model.Readiness.{ReadinessStatus, not_configured, pending, ready, timed_out, failed}
use procherd.Model.Documents.{RunView, WaitResult}

pub wait_condition_name : WaitCondition → Text
wait_condition_name WaitCondition.running = codes "running"
wait_condition_name WaitCondition.ready = codes "ready"
wait_condition_name WaitCondition.exit = codes "exit"

abbrev pub is_orphaned : ObservedStatus → Bool
is_orphaned ObservedStatus.orphaned = true
is_orphaned ObservedStatus.consistent = false

abbrev reason_text : Option String → Text
reason_text none = codes "unknown"
reason_text (some s) = codes s

pub readiness_ended : Text → Text → Option String → AppError
readiness_ended run_id status reason = operational readiness_failed (
    format "run {} readiness ended as {}: {}"
      (text run_id ∷ text status ∷ text (reason_text reason) ∷ []))

-- The arms of the match on the readiness.
pub ready_reached : Text → RunView → ReadinessStatus → Result Bool
unfolding readiness_ended
ready_reached run_id view ready = ok true
ready_reached run_id view not_configured =
    err (usage_error (format "run {} has no readiness conditions" (text run_id ∷ [])))
ready_reached run_id view timed_out =
    err (readiness_ended run_id (codes "TimedOut") view.state.readiness.failure_reason)
ready_reached run_id view failed =
    err (readiness_ended run_id (codes "Failed") view.state.readiness.failure_reason)
ready_reached run_id view pending = do
  refuse_if (is_terminal view.state.status) (
      operational readiness_failed
        (format "run {} exited before it became ready" (text run_id ∷ [])))
  ok false

pub satisfied : Text → WaitCondition → RunView → Result Bool
unfolding ready_reached
satisfied run_id WaitCondition.running view = ok (is_some view.state.process.process_pid)
satisfied run_id WaitCondition.ready view = ready_reached run_id view view.state.readiness.status
satisfied run_id WaitCondition.exit view =
    ok (is_terminal view.state.status && not view.supervisor_active)

-- An iteration before its test of the clock.
wait_check : Text → WaitCondition → RunView → Result Bool
unfolding satisfied
wait_check run_id condition view = do
  refuse_if (is_orphaned view.observed_status) (
      operational Error.orphaned
        (format "run {} has live durable state but no active supervisor" (text run_id ∷ [])))
  satisfied run_id condition view

not_reached : Text → WaitCondition → ℕ → AppError
unfolding wait_condition_name
not_reached run_id condition timeout = timeout_error (
    format "run {} did not reach {} within {} ms"
      (text run_id ∷ text (wait_condition_name condition) ∷ num timeout ∷ []))

abbrev won : WaitCondition → RunView → WaitResult
won condition view = record {
  schema_version = codes "procherd.wait.v1";
  condition = condition;
  run = view;
}

-- What an iteration does with its view: the result, or `none` to go on.
wait_next : Text → WaitCondition → ℕ → Bool → RunView → Bool → Result (Option WaitResult)
unfolding not_reached
wait_next run_id condition timeout passed view true = ok (some (won condition view))
wait_next run_id condition timeout true view false = err (not_reached run_id condition timeout)
wait_next run_id condition timeout false view false = ok none

-- What an iteration reads.
abbrev pub Reading : Type 0
Reading = Result RunView × ℕ

-- One iteration of the loop.
unfoldable pub wait_step : Text → WaitCondition → ℕ → ℕ → Reading → Result (Option WaitResult)
unfolding wait_check wait_next
wait_step run_id condition timeout deadline (read, now) = do
  view ← read
  reached ← wait_check run_id condition view
  wait_next run_id condition timeout (leb deadline now) view reached

-- `started` is the reading of the clock before the loop. The timeout is in milliseconds.
unfoldable pub wait : Text → WaitCondition → ℕ → ℕ → List Reading → Result (Option WaitResult)
wait run_id condition timeout started readings = do
  refuse_if ((timeout == 0) || ltb 86400000 timeout)
      (usage_error (format "wait timeout must be greater than zero and at most 24h" []))
  until_some (wait_step run_id condition timeout (started + timeout)) readings

abbrev result_or : WaitResult → Result (Option WaitResult) → WaitResult
result_or d (ok (some w)) = w
result_or d _ = d

none≢some : {w : WaitResult} → none ≢ some w
none≢some h = cc

-- What a condition asks of a view.
abbrev pub Holds : WaitCondition → RunView → Type 0
Holds WaitCondition.running view = is_some view.state.process.process_pid ≡ true
Holds WaitCondition.ready view = view.state.readiness.status ≡ ready
Holds WaitCondition.exit view =
    (is_terminal view.state.status ≡ true) × (view.supervisor_active ≡ false)

abbrev Success : WaitCondition → WaitResult → Type 0
Success condition w = (w.run.observed_status ≡ ObservedStatus.consistent) × Holds condition w.run

ready_reached-ready :
    (run_id : Text) (view : RunView) (s : ReadinessStatus)
    → ready_reached run_id view s ≡ ok true
    → s ≡ ready
unfolding ready_reached
ready_reached-ready run_id view ready h = refl
ready_reached-ready run_id view not_configured h = cc
ready_reached-ready run_id view timed_out h = cc
ready_reached-ready run_id view failed h = cc
ready_reached-ready run_id view pending h = ground arith

satisfied-Holds :
    (run_id : Text) (condition : WaitCondition) (view : RunView)
    → satisfied run_id condition view ≡ ok true
    → Holds condition view
unfolding satisfied
satisfied-Holds run_id WaitCondition.running view h = ok_injective _ true h
satisfied-Holds run_id WaitCondition.ready view h = ready_reached-ready run_id view _ h
satisfied-Holds run_id WaitCondition.exit view h =
    let e = ok_injective (is_terminal view.state.status && not view.supervisor_active) true h in
    (ground arith, ground arith)

consistent_of : (s : ObservedStatus) → is_orphaned s ≡ false → s ≡ ObservedStatus.consistent
consistent_of ObservedStatus.consistent h = refl
consistent_of ObservedStatus.orphaned h = cc

wait_step-Success :
    (run_id : Text) (condition : WaitCondition) (timeout deadline : ℕ) (x : Reading)
    (w : WaitResult)
    → wait_step run_id condition timeout deadline x ≡ ok (some w)
    → Success condition w
unfolding wait_step wait_check wait_next
wait_step-Success run_id condition timeout deadline (read, now) w h =
    let (view, e, h) = >>=-eq-ok read _ h in
    let (reached, c, h) = >>=-eq-ok (wait_check run_id condition view) _ h in
    let (_, o, c) = >>=-eq-ok (refuse_if (is_orphaned view.observed_status) _) _ c in
    conclude view reached (leb deadline now) (consistent_of _ (refuse_if-ok _ _ o)) c h
  where
    conclude :
        (view : RunView) (reached passed : Bool)
        → view.observed_status ≡ ObservedStatus.consistent
        → satisfied run_id condition view ≡ ok reached
        → wait_next run_id condition timeout passed view reached ≡ ok (some w)
        → Success condition w
    conclude view true passed o c h =
        subst (Success condition)
          (ap (λ (r : Result (Option WaitResult)). result_or (won condition view) r) h)
          (o, satisfied-Holds run_id condition view c)
    conclude view false true o c h = cc
    conclude view false false o c h = absurd (none≢some (ok_injective none (some w) h))

-- A wait that succeeds, whatever views its iterations read, gives a view that is not orphaned and of
-- which the condition holds: a process identifier is known, the readiness is ready, or the status is
-- terminal with a supervisor that is no longer active. Its timeout is positive and at most 24 hours.
pub wait-Success :
    (run_id : Text) (condition : WaitCondition) (timeout started : ℕ) (readings : List Reading)
    (w : WaitResult)
    → wait run_id condition timeout started readings ≡ ok (some w)
    → (w.run.observed_status ≡ ObservedStatus.consistent)
      × Holds condition w.run
      × (0 < timeout)
      × (timeout ≤ 86400000)
unfolding wait
wait-Success run_id condition timeout started readings w h =
    let (_, e, h) = >>=-eq-ok (refuse_if ((timeout == 0) || ltb 86400000 timeout) _) _ h in
    let b = refuse_if-ok ((timeout == 0) || ltb 86400000 timeout) _ e in
    let (x, e) =
      until_some-found (wait_step run_id condition timeout (started + timeout)) readings w h in
    let (o, holds) = wait_step-Success run_id condition timeout (started + timeout) x w e in
    (o, holds, ground arith, ground arith)
