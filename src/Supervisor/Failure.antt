-- ===== src/Supervisor/Failure.antt =====
-- src/supervisor.rs: `supervise` after the loop, and `mark_supervisor_failed`. The state document
-- is read from the disk; clock readings and the outcome of the write are arguments.
use procherd.Prelude.{ℕ, ◌≡◌, refl, true, false, Option, none, some, is_some, if◌then◌else◌, inr}
use procherd.Prelude.Texts.{Text}
use procherd.Error.{AppError, kind_name, Result, ok, err}
use procherd.Model.Status.{RunStatus, is_terminal, supervisor_failed}
use procherd.Model.Run.{RunState}
use procherd.Leases.Allocation.{NothingHeld, close_leases, close_leases-NothingHeld}
use procherd.Store.Files.{Node, regular, read_json, atomic_write_json}

failed_state : ℕ → ℕ → AppError → RunState → RunState
failed_state updated_at finished_at e s = record s {
  status = RunStatus.failed;
  updated_at_ms = updated_at;
  exit = some (record {
    code = none;
    signal = none;
    reason = supervisor_failed;
    finished_at_ms = finished_at;
  });
  failure = some (record { kind = kind_name e.kind; message = e.message });
  cleanup = record s.cleanup { completed_at_ms = some updated_at };
  leases = close_leases updated_at s.leases;
}

written : Option AppError → ℕ → Node RunState → RunState → Node RunState
written none len old s = atomic_write_json len s
written (some e) len old s = old

mark_read : ℕ → ℕ → Option AppError → ℕ → AppError → Node RunState → Result RunState → Node RunState
unfolding failed_state written
mark_read updated_at finished_at outcome len e node (err _) = node
mark_read updated_at finished_at outcome len e node (ok s) =
    if is_terminal s.status
    then node
    else written outcome len node (failed_state updated_at finished_at e s)

-- `path` is that of state.json, `node` what is there, and `len` the length of the new document.
unfoldable pub mark_supervisor_failed :
    Text → ℕ → ℕ → Option AppError → ℕ → AppError → Node RunState → Node RunState
unfolding mark_read
mark_supervisor_failed path updated_at finished_at outcome len e node =
    mark_read updated_at finished_at outcome len e node (read_json path node)

-- A supervisor that fails with an error and can read the state document never changes a terminal
-- state; a state that is not terminal, once the write succeeds, becomes the failed state with the
-- error's kind and message, an exit record, a completion time, and no lease held.
pub mark_supervisor_failed_lem :
    (path : Text) (updated_at finished_at len : ℕ) (e : AppError) (node : Node RunState)
    (s : RunState)
    → read_json path node ≡ ok s
    → let node' = mark_supervisor_failed path updated_at finished_at none len e node in
      (is_terminal s.status ≡ true → node' ≡ node)
      × (is_terminal s.status ≡ false
          → (d : RunState) × (node' ≡ regular len (inr d))
            × (d.status ≡ RunStatus.failed)
            × (d.failure ≡ some (record { kind = kind_name e.kind; message = e.message }))
            × (is_some d.exit ≡ true)
            × (is_some d.cleanup.completed_at_ms ≡ true)
            × NothingHeld d.leases)
unfolding mark_supervisor_failed
mark_supervisor_failed_lem path updated_at finished_at len e node s h = (
  λ t. rw (h, mark_read, t) refl,
  λ t. (
    failed_state updated_at finished_at e s,
    rw (h, mark_read, t) refl,
    refl,
    refl,
    refl,
    refl,
    close_leases-NothingHeld updated_at s.leases,
  ),
)
