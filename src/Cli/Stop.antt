-- ===== src/Cli/Stop.antt =====
-- src/cli.rs: `stop`. The views that its loops read, and the clock with each of them, are
-- arguments. Times are in milliseconds.
pub mod Returns
use procherd.Prelude.{
  ℕ, ◌≡◌, ◌≢◌, Bool, true, false, not, ◌&&◌, Option, none, some, List, [], ◌∷◌, ◌+◌, ltb, leb,
  if◌then◌else◌,
}
use procherd.Prelude.Texts.{Text, codes, text, format}
use procherd.Error.{
  AppError, Result, ok, err, ◌>>=◌, ◌>>◌, refuse_if, operational, usage_error, timeout_error,
}
use procherd.Error
use procherd.Cli.Clock.{until_some}
use procherd.Model.Status.{is_terminal}
use procherd.Model.Documents.{RunView, StopRequest, StopResult}

pub stop_result : Bool → RunView → StopResult
stop_result already view = record {
  schema_version = codes "procherd.stop.v1";
  already_terminal = already;
  run = view;
}

-- What an iteration of the loop that follows the request reads.
abbrev pub Reading : Type 0
Reading = Result RunView × ℕ

-- A run that was terminal already: its supervisor is waited for. The clock is read before the next
-- view.
pub await_inactive : Text → ℕ → RunView → List (ℕ × Result RunView) → Result (Option StopResult)
unfolding stop_result
await_inactive run_id deadline view [] =
    if view.supervisor_active then ok none else ok (some (stop_result true view))
await_inactive run_id deadline view ((now, read) ∷ rest) =
    if view.supervisor_active
    then (do
      refuse_if (leb deadline now) (
          timeout_error (
            format "run {} reached terminal state but its supervisor remained active"
              (text run_id ∷ [])))
      view' ← read
      await_inactive run_id deadline view' rest)
    else ok (some (stop_result true view))

stop_next : Text → Bool → RunView → Result (Option StopResult)
unfolding stop_result
stop_next run_id passed view =
    if is_terminal view.state.status && not view.supervisor_active
    then ok (some (stop_result false view))
    else if not view.supervisor_active
    then err (
        operational Error.orphaned
          (format "run {} supervisor exited before persisting terminal state" (text run_id ∷ [])))
    else if passed
    then err
        (timeout_error (format "run {} did not stop within the grace period" (text run_id ∷ [])))
    else ok none

-- One iteration of the loop that follows the request.
pub stop_step : Text → ℕ → Reading → Result (Option StopResult)
unfolding stop_next
stop_step run_id deadline (read, now) = do view ← read; stop_next run_id (leb deadline now) view

-- What a stop reads from outside; `idle_from` and `asked_at` are the clock before the two loops.
pub record StopEnv : Type 0 where
  pub first : Result RunView
  pub idle_from : ℕ
  pub idle : List (ℕ × Result RunView)
  pub owner_token : Result Text
  pub now : ℕ
  pub write : Result (Unit {0})
  pub asked_at : ℕ
  pub readings : List Reading

unfoldable pub stop_request : Text → Text → ℕ → ℕ → StopRequest
stop_request run_id owner_token now grace_ms = record {
  schema_version = codes "procherd.stop-request.v1";
  run_id = run_id;
  owner_token = owner_token;
  requested_at_ms = now;
  grace_ms = grace_ms;
}

-- The request that is written, and the result; `none` if the loop has not returned.
request_and_wait : StopEnv → Text → ℕ → RunView → Result (Option StopRequest × Option StopResult)
unfolding stop_request stop_step
request_and_wait env run_id grace_ms view = do
  refuse_if (not view.supervisor_active) (
      operational Error.orphaned
        (format "run {} cannot be stopped because its supervisor is not active" (text run_id ∷ [])))
  token ← env.owner_token
  env.write
  r ← until_some (stop_step run_id (env.asked_at + grace_ms + 5000)) env.readings
  ok (some (stop_request run_id token env.now grace_ms), r)

already_ended : StopEnv → Text → RunView → Result (Option StopRequest × Option StopResult)
unfolding await_inactive
already_ended env run_id view = do
  r ← await_inactive run_id (env.idle_from + 5000) view env.idle
  ok (none, r)

unfoldable pub stop : StopEnv → Text → ℕ → Result (Option StopRequest × Option StopResult)
unfolding already_ended request_and_wait
stop env run_id grace_ms = do
  refuse_if (ltb 300000 grace_ms) (usage_error (format "stop grace must be at most 5m" []))
  view ← env.first
  if is_terminal view.state.status
      then already_ended env run_id view
      else request_and_wait env run_id grace_ms view

abbrev Stopped : StopResult → Type 0
Stopped w = (is_terminal w.run.state.status ≡ true) × (w.run.supervisor_active ≡ false)

none≢some : {w : StopResult} → none ≢ some w
none≢some h = cc

-- A stop's result of a kind.
abbrev Ends : Bool → StopResult → Type 0
Ends already w = Stopped w × (w.already_terminal ≡ already)
