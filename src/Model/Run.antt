-- ===== src/Model/Run.antt =====
-- src/model.rs: the run state and its parts.
use procherd.Prelude.{ℕ, Bool, true, false, Option, none, List, map}
use procherd.Prelude.Texts.{Text, Message}
use procherd.Model.Status.{
  RunStatus, EnvironmentMode, TreeControl, ExitReason, PortLeaseGuarantee, coordinated_best_effort,
}
use procherd.Model.Readiness.{ReadinessState}

pub record EnvironmentPolicy : Type 0 where
  pub mode : EnvironmentMode
  pub inherited_name_count : ℕ
  pub inherited_names_sha256 : Text
  pub injected_names : List Text

pub record CommandSpec : Type 0 where
  pub program : Text
  pub args : List Text
  pub working_directory : Text
  pub environment : EnvironmentPolicy

pub record ProcessInfo : Type 0 where
  pub supervisor_pid : Option ℕ
  pub process_pid : Option ℕ
  pub tree_control : TreeControl

-- An `i32`: `negative n` is -(n + 1).
pub data Code : Type 0 where
  positive negative : ℕ → Code

pub record ExitInfo : Type 0 where
  pub code : Option Code
  pub signal : Option Code
  pub reason : ExitReason
  pub finished_at_ms : ℕ

pub record CleanupInfo : Type 0 where
  pub requested_at_ms : Option ℕ
  pub completed_at_ms : Option ℕ
  pub grace_ms : Option ℕ
  pub graceful_signal_supported : Bool
  pub force_used : Bool
  pub descendant_cleanup_triggered : Bool

-- `unix` is `cfg!(unix)`.
unfoldable pub for_platform : Bool → CleanupInfo
for_platform unix = record {
  requested_at_ms = none;
  completed_at_ms = none;
  grace_ms = none;
  graceful_signal_supported = unix;
  force_used = false;
  descendant_cleanup_triggered = false;
}

pub record LogSummary : Type 0 where
  pub next_cursor : ℕ
  pub captured_bytes : ℕ
  pub dropped_bytes : ℕ
  pub max_bytes : ℕ
  pub stdout_sha256 : Option Text
  pub stderr_sha256 : Option Text

unfoldable pub new_summary : ℕ → LogSummary
new_summary max_bytes = record {
  next_cursor = 1;
  captured_bytes = 0;
  dropped_bytes = 0;
  max_bytes = max_bytes;
  stdout_sha256 = none;
  stderr_sha256 = none;
}

pub record FailureInfo : Type 0 where
  pub kind : Text
  pub message : Message

pub record PortLease : Type 0 where
  pub name : Text
  pub address : Option Text
  pub port : Option ℕ
  pub acquired_at_ms : Option ℕ
  pub handoff_at_ms : Option ℕ
  pub handoff_gap_ms : Option ℕ
  pub released_at_ms : Option ℕ
  pub guarantee : PortLeaseGuarantee

pub record TempDirectoryLease : Type 0 where
  pub name : Text
  pub path : Option Text
  pub acquired_at_ms : Option ℕ
  pub released_at_ms : Option ℕ
  pub retained_after_release : Bool

pub record LeaseState : Type 0 where
  pub ports : List PortLease
  pub temp_directories : List TempDirectoryLease

abbrev requested_port : Text → PortLease
requested_port name = record {
  name = name;
  address = none;
  port = none;
  acquired_at_ms = none;
  handoff_at_ms = none;
  handoff_gap_ms = none;
  released_at_ms = none;
  guarantee = coordinated_best_effort;
}

abbrev requested_temp : Text → TempDirectoryLease
requested_temp name = record {
  name = name;
  path = none;
  acquired_at_ms = none;
  released_at_ms = none;
  retained_after_release = true;
}

unfoldable pub requested : List Text → List Text → LeaseState
requested port_names temp_names = record {
  ports = map requested_port port_names;
  temp_directories = map requested_temp temp_names;
}

pub record LeaseRequests : Type 0 where
  pub port_names : List Text
  pub temp_directory_names : List Text

pub record RunLimits : Type 0 where
  pub max_runtime_ms : Option ℕ
  pub runtime_deadline_at_ms : Option ℕ
  pub runtime_grace_ms : ℕ
  pub runtime_limit_triggered_at_ms : Option ℕ

pub record RunState : Type 0 where
  pub schema_version : Text
  pub run_id : Text
  pub status : RunStatus
  pub created_at_ms : ℕ
  pub updated_at_ms : ℕ
  pub command : CommandSpec
  pub process : ProcessInfo
  pub exit : Option ExitInfo
  pub failure : Option FailureInfo
  pub readiness : ReadinessState
  pub leases : LeaseState
  pub limits : RunLimits
  pub cleanup : CleanupInfo
  pub logs : LogSummary
