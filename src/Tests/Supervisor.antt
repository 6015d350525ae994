-- ===== src/Tests/Supervisor.antt =====
-- src/supervisor.rs at concrete values.
use procherd.Prelude.{◌≡◌, ◌≢◌, refl, true, false, is_some, Option, none, some, List, [], ◌∷◌, inr}
use procherd.Prelude.Texts.{codes, format, text_eq}
use procherd.Error.{AppError, ok, Kind}
use procherd.Model.Status.{RunStatus, is_terminal}
use procherd.Model.Run.{RunState}
use procherd.Model.Documents.{StopRequest}
use procherd.Readiness.Tracker.{new_tracker, PollEnv}
use procherd.Leases.Allocation.{NothingHeld}
use procherd.Logs.Writer.{create}
use procherd.Store.Files.{Node, absent, regular, ensure_regular_file, read_json}
use procherd.Supervisor.Stopping.{
  IoKind, ExitStatus, read_stop_request, read_stop_request-authentic,
}
use procherd.Supervisor.Failure.{mark_supervisor_failed, mark_supervisor_failed_lem}
use procherd.Supervisor.Loop.{Turn, Live, supervise_loop}
use procherd.Supervisor.Loop.Returns.{supervise_loop-returns}
use procherd.Tests.Samples.{run_name, plain_hash, plain_base64, sample_state, sample_spec}

abbrev pub request : StopRequest
request = record {
  schema_version = codes "procherd.stop-request.v1";
  run_id = run_name;
  owner_token = codes "token";
  requested_at_ms = 9;
  grace_ms = 100;
}

read_stop_request-authentic_example :
    (text_eq request.schema_version (codes "procherd.stop-request.v1") ≡ true)
    × (text_eq request.run_id sample_spec.run_id ≡ true)
    × (text_eq request.owner_token sample_spec.owner_token ≡ true)
unfolding read_stop_request read_json ensure_regular_file text_eq
read_stop_request-authentic_example =
    read_stop_request-authentic none sample_spec (regular 120 (inr request)) request refl

abbrev lost_log : AppError
lost_log = record { code = 1; kind = Kind.io; message = format "disk full" [] }

abbrev live_node : Node RunState
live_node = regular 900 (inr (sample_state RunStatus.running))

mark_supervisor_failed_lem_example :
    (is_terminal RunStatus.running ≡ true
      → mark_supervisor_failed (codes "state.json") 5 6 none 950 lost_log live_node ≡ live_node)
    × (is_terminal RunStatus.running ≡ false
        → (d : RunState) × (mark_supervisor_failed
              (codes "state.json")
              5
              6
              none
              950
              lost_log
              live_node
            ≡ regular 950 (inr d))
          × (d.status ≡ RunStatus.failed)
          × (d.failure ≡ some (record { kind = codes "io"; message = format "disk full" [] }))
          × (is_some d.exit ≡ true)
          × (is_some d.cleanup.completed_at_ms ≡ true)
          × NothingHeld d.leases)
unfolding read_json ensure_regular_file
mark_supervisor_failed_lem_example =
    mark_supervisor_failed_lem (codes "state.json") 5 6 950 lost_log live_node
      (sample_state RunStatus.running) refl

abbrev quiet_poll : PollEnv
quiet_poll = record {
  now = 0;
  instant = 0;
  probe_instant = 0;
  observed_at = 0;
  finish_at = 0;
  probe_tcp = λ _. none;
  probe_http = λ _. none;
  probe_file = λ _. none;
}

-- An iteration with a stop request on the disk, and the child's status as it is waited for.
abbrev turn : Node StopRequest → Option ExitStatus → Turn
turn node waited = record {
  received = [];
  poll_env = quiet_poll;
  changed_at = 3;
  write_instant = 3;
  request = node;
  removal = none;
  stop_at = 3;
  limit_at = 3;
  triggered_at = 3;
  instant = 3;
  signalled = none;
  forced = none;
  forced_at = 3;
  waited = ok waited;
  final_kill = some (record { kind = IoKind.not_found; raw_os_error = none; message = [] });
  late = [];
  closed = true;
  sync = none;
  registry = ok tt;
  released_at = 4;
  finished_at = 4;
  exited_at = 4;
  heartbeat_instant = 3;
  heartbeat_at = 3;
  persisted = λ _. none;
}

abbrev begun : Live plain_hash plain_base64
begun = record {
  logs = create plain_hash plain_base64 100;
  readiness = new_tracker;
  state = sample_state RunStatus.running;
  halt = none;
  last_state_write = 0;
  leases = record { run_id = run_name; ports = []; environment = []; registry_released = false };
  disk = sample_state RunStatus.running;
}

abbrev pub two_turns : List Turn
two_turns =
    turn (regular 120 (inr request)) none
    ∷ turn (absent (codes "gone")) (some (record { code = none; signal = none }))
    ∷ []

supervise_loop-returns_example :
    (supervise_loop plain_hash plain_base64 sample_spec two_turns begun).0 ≢ ok false
supervise_loop-returns_example =
    supervise_loop-returns plain_hash plain_base64 sample_spec two_turns begun refl
