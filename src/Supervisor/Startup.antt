-- ===== src/Supervisor/Startup.antt =====
-- src/supervisor.rs: `supervise_locked` up to its loop. The variables are the two documents on the
-- disk; what is read from outside is a `BootEnv`.
pub mod Documents
use procherd.Prelude.{
  ℕ, ◌≡◌, Bool, true, false, not, ◌&&◌, ◌||◌, ◌==◌, Option, none, some, List, [], ◌∷◌, ◌⊎◌, inl,
  inr, option_map, saturating_add, is_none, if◌then◌else◌,
}
use procherd.Prelude.Texts.{Text, codes, text, format, text_eq}
use procherd.Error.{
  AppError, kind_name, Result, ok, err, refuse_if, integrity_error, operational, process_spawn,
  from_io,
}
use procherd.Model.Status.{RunStatus, spawn_failed}
use procherd.Model.Equality.{readiness_eq, list_eq, option_num_eq}
use procherd.Model.Run.{RunState, ProcessInfo, RunLimits}
use procherd.Model.Documents.{SupervisorSpec, run_schema_version}
use procherd.Leases.Registry.{ReservedPort}
use procherd.Leases.Allocation.{LeaseAllocation, handoff, record_spawn, release}
use procherd.Leases.Populate.{acquire}
use procherd.Logs.Writer.{Sha256, Base64, create}
use procherd.Readiness.Tracker.{new_tracker}
use procherd.Store.Files.{Node, absent, read_json, atomic_write_json}
use procherd.Store.RunId.{Ulid}
use procherd.Supervisor.Body.{Body, ◌>>=◌, ◌>>◌, give, modify, gets, lift}
use procherd.Supervisor.Loop.{Live}

pub record Boot : Type 0 where
  pub spec_file : Node SupervisorSpec
  pub state_file : Node RunState

pub record BootEnv : Type 0 where
  pub run_dir : Text
  pub parent : Option Text  -- the state root
  pub removal : Option Text  -- the error of `remove_file`, if it fails
  pub supervisor_pid : ℕ
  pub starting_at : ℕ
  pub is_utf8 : Text → Bool
  pub acquired_at : ℕ
  pub temps : Result (List (Text × Text))  -- what `create_temp_directories` returns
  pub reserved : Result (List ReservedPort)  -- what `reserve_ports` returns
  pub handoff_at : ℕ
  pub spawned : Text ⊎ ℕ  -- the error's text, or the child's process identifier
  pub registry : Result (Unit {0})
  pub failed_at : ℕ
  pub exited_at : ℕ
  pub released_at : ℕ
  pub spawned_at : ℕ
  pub running_at : ℕ
  pub log_file : Result (Unit {0})  -- whether `LogWriter::create` opens its file
  pub begun_instant : ℕ
  pub printed : RunState → ℕ  -- the length of the printed document
  pub persisted : ℕ → Option AppError  -- the error of the i-th `persist_state`, if it fails

-- The specification that the start command wrote belongs to this state.
unfoldable pub spec_matches : SupervisorSpec → RunState → Bool
spec_matches spec s =
    ((text_eq s.schema_version run_schema_version && text_eq s.run_id spec.run_id)
      && (text_eq s.command.program spec.command.program
          && list_eq text_eq s.command.args spec.command.args))
    && (readiness_eq s.readiness spec.readiness
        && (option_num_eq s.limits.max_runtime_ms spec.max_runtime_ms
            && s.limits.runtime_grace_ms == spec.runtime_grace_ms))

written_state : BootEnv → RunState → Option AppError → Body Boot (Unit {0})
written_state env s (some e) = lift (err e)
written_state env s none =
    modify (λ b. record b { state_file = atomic_write_json (env.printed s) s })

-- `persist_state`, the i-th time.
write_state : BootEnv → ℕ → RunState → Body Boot (Unit {0})
unfolding written_state
write_state env i s = written_state env s (env.persisted i)

abbrev unless : Option Text → Result (Unit {0})
unless none = ok tt
unless (some e) = err (from_io e)

abbrev starting_state : BootEnv → RunState → RunState
starting_state env s = record s {
  status = RunStatus.starting;
  updated_at_ms = env.starting_at;
  process = record s.process { supervisor_pid = some env.supervisor_pid };
}

abbrev spawn_failed_state : BootEnv → Text → RunState → RunState
spawn_failed_state env e s = record s {
  status = RunStatus.failed;
  updated_at_ms = env.failed_at;
  exit = some (record {
    code = none;
    signal = none;
    reason = spawn_failed;
    finished_at_ms = env.exited_at;
  });
  failure = some (record { kind = kind_name process_spawn; message = format "{}" (text e ∷ []) });
}

abbrev running_state : BootEnv → SupervisorSpec → ℕ → RunState → RunState
running_state env spec pid s = record s {
  limits = record s.limits {
    runtime_deadline_at_ms = option_map (saturating_add env.spawned_at) spec.max_runtime_ms;
  };
  status = RunStatus.running;
  updated_at_ms = env.running_at;
  process = record s.process { process_pid = some pid };
}

-- The two documents, up to the removal of the specification.
unfoldable pub read_documents : BootEnv → Body Boot (SupervisorSpec × RunState)
read_documents env = do
  b ← gets (λ b. b)
  spec ← lift (read_json (codes "spec.json") b.spec_file)
  lift (
      refuse_if (not (text_eq spec.schema_version (codes "procherd.supervisor-spec.v1")))
        (integrity_error (format "unsupported supervisor spec {}" (text spec.schema_version ∷ []))))
  s ← lift (read_json (codes "state.json") b.state_file)
  lift (
      refuse_if (not (spec_matches spec s))
        (integrity_error (format "supervisor spec does not match run state" [])))
  lift (unless env.removal)
  modify (λ b. record b { spec_file = absent (codes "No such file or directory") })
  give (spec, s)

module _ (u : Ulid) (sha : Sha256) (b64 : Base64) where
  -- The variables of the loop at its beginning.
  begun : BootEnv → SupervisorSpec → LeaseAllocation → RunState → Live sha b64
  begun env spec leases s = record {
    logs = create sha b64 spec.max_log_bytes;
    readiness = new_tracker;
    state = s;
    halt = none;
    last_state_write = env.begun_instant;
    leases = leases;
    disk = s;
  }

  -- After the attempt to spawn the child.
  after_spawn :
      BootEnv → SupervisorSpec → LeaseAllocation → RunState → Text ⊎ ℕ → Body Boot (Live sha b64)
  unfolding write_state begun
  after_spawn env spec leases s (inl e) = do
    (_, s') ← lift (release env.registry env.released_at leases (spawn_failed_state env e s))
    write_state env 2 s'
    lift (
        err (
          operational process_spawn
            (format "cannot start {}: {}" (text spec.command.program ∷ text e ∷ []))))
  after_spawn env spec leases s (inr pid) = do
    let s' = running_state env spec pid (record_spawn env.spawned_at s)
    write_state env 2 s'
    lift env.log_file
    give (begun env spec leases s')

  unfoldable pub boot : BootEnv → Body Boot (SupervisorSpec × Live sha b64)
  unfolding read_documents write_state after_spawn
  boot env = do
    (spec, s0) ← read_documents env
    let s1 = starting_state env s0
    write_state env 0 s1
    lift (
        refuse_if (is_none env.parent)
          (integrity_error (format "run directory has no state-root parent" [])))
    (leases, s2) ←
        lift (acquire u env.is_utf8 env.acquired_at env.temps env.reserved spec.lease_requests s1)
    write_state env 1 s2
    let (leases', s3) = handoff env.handoff_at leases s2
    live ← after_spawn env spec leases' s3 env.spawned
    give (spec, live)
