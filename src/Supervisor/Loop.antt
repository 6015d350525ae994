-- ===== src/Supervisor/Loop.antt =====
-- src/supervisor.rs: the loop of `supervise_locked`, from the spawned child to the final state.
-- The variables of the loop are a record, with `disk` for the state document as it was last
-- persisted; what one iteration reads from outside is a `Turn`.
pub mod Terminal
pub mod Returns
use procherd.Prelude.{
  ℕ, zero, suc, ◌+◌, ◌-◌, ◌≡◌, Bool, true, false, ◌&&◌, ◌||◌, not, Option, none, some, List, [],
  ◌∷◌, ltb, leb, is_some, if◌then◌else◌,
}
use procherd.Prelude.Texts.{format}
use procherd.Prelude.Texts.{Text}
use procherd.Error.{AppError, WriteError, Result, ok, err, operational, log_drain_timeout}
use procherd.Model.Status.{
  RunStatus, stopping, stopped, exited, ExitReason, stop_requested, runtime_limit, process_exited,
}
use procherd.Model.Readiness.{ReadinessState}
use procherd.Model.Run.{CleanupInfo, RunLimits, LogSummary, ExitInfo, RunState}
use procherd.Model.Documents.{SupervisorSpec, StopRequest}
use procherd.Readiness.Tracker.{ReadinessTracker, PollEnv, observe_log, poll, deadline_passed}
use procherd.Readiness.Tracker
use procherd.Leases.Allocation.{LeaseAllocation, release}
use procherd.Logs.Writer.{
  LogChunk, Sha256, Base64, LogWriter, log_record, capturable_bytes, snapshot, finish,
}
use procherd.Store.Files.{Node}
use procherd.Supervisor.Body.{Body, ◌>>=◌, ◌>>◌, give, modify, gets, lift}
use procherd.Supervisor.Stopping.{
  IoError, Stopping, with_cleanup, start_kill_tolerant, request_stop, mark_cleanup,
  read_stop_request, ExitStatus, exit_info,
}

abbrev pub log_drain_batch_chunks : ℕ
log_drain_batch_chunks = 64

-- 250 ms
abbrev pub state_write_interval : ℕ
state_write_interval = 250000000

-- A received chunk, with the clock readings and the write's outcome of its recording.
pub record Received : Type 0 where
  pub chunk : LogChunk
  pub clock : ℕ → ℕ
  pub finish_at : ℕ
  pub recorded_at : ℕ
  pub outcome : Option WriteError

pub record Turn : Type 0 where
  pub received : List Received  -- what the channel holds
  pub poll_env : PollEnv
  pub changed_at : ℕ
  pub write_instant : ℕ
  pub request : Node StopRequest
  pub removal : Option Text
  pub stop_at : ℕ  -- `now_ms` after a request was read
  pub limit_at : ℕ  -- `now_ms` at the deadline's test
  pub triggered_at : ℕ
  pub instant : ℕ
  pub signalled : Option IoError
  pub forced : Option IoError
  pub forced_at : ℕ
  pub waited : Result (Option ExitStatus)  -- what `try_wait_retry` returns
  pub final_kill : Option IoError
  pub late : List Received  -- what the channel gives until it closes or the limit is reached
  pub closed : Bool  -- whether it closed before the limit
  pub sync : Option Text
  pub registry : Result (Unit {0})
  pub released_at : ℕ
  pub finished_at : ℕ
  pub exited_at : ℕ
  pub heartbeat_instant : ℕ
  pub heartbeat_at : ℕ
  pub persisted : ℕ → Option AppError  -- the error of the i-th `persist_state`, if it fails

module _ (sha : Sha256) (b64 : Base64) where
  pub record Live : Type 0 where
    pub logs : LogWriter sha b64
    pub readiness : ReadinessTracker
    pub state : RunState
    pub halt : Option Stopping  -- the variable `stopping`
    pub last_state_write : ℕ
    pub leases : LeaseAllocation
    pub disk : RunState

  abbrev pub in_state : (RunState → RunState) → Live → Live
  in_state f l = record l { state = f l.state }

  unfoldable pub record_chunk : Received → Body Live Bool
  record_chunk r = do
    l ← gets (λ l. l)
    let (t, s, changed) =
        observe_log r.clock r.finish_at r.chunk.stream (capturable_bytes sha b64 l.logs r.chunk)
          l.readiness l.state.readiness
    modify (λ l. record l { readiness = t; state = record l.state { readiness = s } })
    logs ← lift (log_record sha b64 r.recorded_at r.outcome r.chunk l.logs)
    modify (λ l. record l { logs = logs })
    give changed

  -- Whether the readiness changed, and whether the batch was used up.
  unfoldable pub drain_available : ℕ → List Received → Body Live (Bool × Bool)
  unfolding record_chunk
  drain_available zero rs = give (false, true)
  drain_available (suc n) [] = give (false, false)
  drain_available (suc n) (r ∷ rs) = do
    changed ← record_chunk r
    (more, saturated) ← drain_available n rs
    give (changed || more, saturated)

  unfoldable pub drain_until_closed : Bool → List Received → Body Live (Unit {0})
  unfolding record_chunk
  drain_until_closed true [] = give tt
  drain_until_closed false [] = lift (
      err (
        operational log_drain_timeout
          (format "log capture did not close within the bounded drain period" [])))
  drain_until_closed closed (r ∷ rs) = do changed ← record_chunk r; drain_until_closed closed rs

  unfoldable pub persist_state : Option AppError → Body Live (Unit {0})
  persist_state (some e) = lift (err e)
  persist_state none = modify (λ l. record l { disk = l.state })

  poll_readiness : PollEnv → Body Live Bool
  poll_readiness env l =
      let (t, s, changed) = poll env l.readiness l.state.readiness in
      (ok changed, record l { readiness = t; state = record l.state { readiness = s } })

  abbrev touched : ℕ → Live → Live
  touched at = in_state (λ s. record s { updated_at_ms = at })

  write_change : Bool → Turn → Body Live (Unit {0})
  unfolding persist_state
  write_change false t = give tt
  write_change true t = do
    modify (touched t.changed_at)
    persist_state (t.persisted 0)
    modify (λ l. record l { last_state_write = t.write_instant })

  abbrev begin_stop : ℕ → ℕ → ℕ → RunState → RunState
  begin_stop at requested_at grace_ms s =
      with_cleanup (λ c. record c { requested_at_ms = some requested_at; grace_ms = some grace_ms })
        (record s { status = RunStatus.stopping; updated_at_ms = at })

  send_stop : Turn → ℕ → ExitReason → Body Live (Unit {0})
  unfolding persist_state
  send_stop t grace_ms reason = do
    modify (in_state mark_cleanup)
    s ← lift (request_stop t.signalled t.instant grace_ms reason)
    modify (λ l. record l { halt = some s })
    persist_state (t.persisted 1)

  abbrev limit_triggered : ℕ → RunState → RunState
  limit_triggered at s = record s {
    limits = record s.limits { runtime_limit_triggered_at_ms = some at };
  }

  stop_at_limit : SupervisorSpec → Turn → Bool → Body Live (Unit {0})
  unfolding send_stop
  stop_at_limit spec t false = give tt
  stop_at_limit spec t true = do
    modify (
        in_state (λ s.
          limit_triggered t.triggered_at
            (begin_stop t.triggered_at t.triggered_at spec.runtime_grace_ms s)))
    send_stop t spec.runtime_grace_ms runtime_limit

  on_request : SupervisorSpec → Turn → Option StopRequest → Body Live (Unit {0})
  unfolding send_stop stop_at_limit
  on_request spec t (some r) = do
    modify (in_state (begin_stop t.stop_at r.requested_at_ms r.grace_ms))
    send_stop t r.grace_ms stop_requested
  on_request spec t none = do
    passed ← gets (λ l. deadline_passed t.limit_at l.state.limits.runtime_deadline_at_ms)
    stop_at_limit spec t passed

  abbrev used_force : RunState → RunState
  used_force = with_cleanup (λ c. record c { force_used = true })

  force_stop : Turn → Stopping → Body Live (Unit {0})
  unfolding persist_state
  force_stop t s =
      if not s.force_sent && leb s.deadline t.instant
      then (do
        killed ← lift (start_kill_tolerant t.forced)
        modify (if killed then in_state mark_cleanup else λ l. l)
        modify (λ l. record l { halt = some (record s { force_sent = true }) })
        modify (λ l. touched t.forced_at (in_state used_force l))
        persist_state (t.persisted 1))
      else give tt

  -- A stop request or the runtime limit begins the stop; a stop under way is forced at its deadline.
  watch_for : SupervisorSpec → Turn → Option Stopping → Body Live (Unit {0})
  unfolding on_request force_stop
  watch_for spec t none = do
    r ← lift (read_stop_request t.removal spec t.request)
    on_request spec t r
  watch_for spec t (some s) = force_stop t s

  abbrev stop_reason : Option Stopping → ExitReason
  stop_reason none = process_exited
  stop_reason (some s) = s.reason

  abbrev end_status : Option Stopping → RunStatus
  end_status none = exited
  end_status (some _) = stopped

  abbrev killed_late : Bool → Live → Live
  killed_late false l = l
  killed_late true l =
      in_state (if is_some l.halt then (λ s. used_force (mark_cleanup s)) else mark_cleanup) l

  abbrev final_state : Turn → ExitStatus → Option Stopping → RunState → RunState
  final_state t status halt s = record s {
    updated_at_ms = t.finished_at;
    cleanup = record s.cleanup { completed_at_ms = some t.finished_at };
    status = end_status halt;
    exit = some (exit_info status (stop_reason halt) t.exited_at);
  }

  abbrev exit_readiness : RunState → RunState
  exit_readiness s = record s { readiness = (Tracker.process_exited s.readiness).0 }

  -- The branch of the exited child.
  unfoldable pub finalize : Turn → ExitStatus → Body Live (Unit {0})
  unfolding persist_state drain_until_closed
  finalize t status = do
    killed ← lift (start_kill_tolerant t.final_kill)
    modify (killed_late killed)
    drain_until_closed t.closed t.late
    modify (in_state exit_readiness)
    l ← gets (λ l. l)
    summary ← lift (finish sha b64 t.sync l.logs)
    modify (in_state (λ s. record s { logs = summary }))
    l ← gets (λ l. l)
    (leases, s) ← lift (release t.registry t.released_at l.leases l.state)
    modify (λ l. record l { leases = leases; state = final_state t status l.halt s })
    persist_state (t.persisted 2)

  -- At most every 250 ms, the log's summary is persisted.
  heartbeat : Turn → Body Live (Unit {0})
  unfolding persist_state
  heartbeat t l =
      if leb state_write_interval (t.heartbeat_instant - l.last_state_write)
      then (do
        modify (λ l.
            touched t.heartbeat_at (in_state (λ s. record s { logs = snapshot sha b64 l.logs }) l))
        persist_state (t.persisted 2)
        modify (λ l. record l { last_state_write = t.heartbeat_instant }))
          l
      else (ok tt, l)

  -- True at the return of the loop.
  reap : Turn → Option ExitStatus → Body Live Bool
  unfolding finalize heartbeat
  reap t none = do heartbeat t; give false
  reap t (some status) = do finalize t status; give true

  -- What an iteration does before it asks for the child's status.
  unfoldable pub before_wait : SupervisorSpec → Turn → Body Live (Unit {0})
  unfolding drain_available poll_readiness write_change watch_for
  before_wait spec t = do
    (logged, saturated) ← drain_available log_drain_batch_chunks t.received
    polled ← poll_readiness t.poll_env
    write_change (logged || polled) t
    halt ← gets (λ l. l.halt)
    watch_for spec t halt

  -- One iteration.
  unfoldable pub iteration : SupervisorSpec → Turn → Body Live Bool
  unfolding before_wait reap
  iteration spec t = do before_wait spec t; waited ← lift t.waited; reap t waited

  -- The iterations of a list of turns, up to the return of the loop; false if they do not reach it.
  unfoldable pub supervise_loop : SupervisorSpec → List Turn → Body Live Bool
  supervise_loop spec [] = give false
  supervise_loop spec (t ∷ ts) = do
    returned ← iteration spec t
    if returned then give true else supervise_loop spec ts
