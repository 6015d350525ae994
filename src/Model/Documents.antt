-- ===== src/Model/Documents.antt =====
-- src/model.rs: requests, log records and the results of the commands.
use procherd.Prelude.{
  ℕ, String, ◌≡◌, Bool, true, false, not, ◌&&◌, Option, List, arith, if◌then◌else◌,
}
use procherd.Prelude.Texts.{Text, codes}
use procherd.Model.Status.{
  RunStatus, is_live, ObservedStatus, consistent, orphaned, LogStream, LogEncoding, WaitCondition,
}
use procherd.Model.Readiness.{ReadinessState}
use procherd.Model.Run.{CommandSpec, LeaseRequests, LeaseState, RunState}

abbrev pub run_schema_version : Text
run_schema_version = codes "procherd.run.v1"

abbrev pub log_record_schema_version : Text
log_record_schema_version = codes "procherd.log-record.v1"

pub record RunView : Type 0 where
  pub state : RunState
  pub supervisor_active : Bool
  pub observed_status : ObservedStatus

unfoldable pub new_view : RunState → Bool → RunView
new_view state supervisor_active = record {
  state = state;
  supervisor_active = supervisor_active;
  observed_status = if is_live state.status && not supervisor_active then orphaned else consistent;
}

pub record StartResult : Type 0 where
  pub schema_version : Text
  pub run : RunView

pub record StatusResult : Type 0 where
  pub schema_version : Text
  pub run : RunView

pub record SupervisorSpec : Type 0 where
  pub schema_version : Text
  pub run_id : Text
  pub owner_token : Text
  pub command : CommandSpec
  pub max_log_bytes : ℕ
  pub readiness : ReadinessState
  pub lease_requests : LeaseRequests
  pub max_runtime_ms : Option ℕ
  pub runtime_grace_ms : ℕ

pub record StopRequest : Type 0 where
  pub schema_version : Text
  pub run_id : Text
  pub owner_token : Text
  pub requested_at_ms : ℕ
  pub grace_ms : ℕ

-- `payload` is the field `data`.
pub record LogRecord : Type 0 where
  pub schema_version : Text
  pub cursor : ℕ
  pub timestamp_ms : ℕ
  pub stream : LogStream
  pub encoding : LogEncoding
  pub payload : Text
  pub byte_count : ℕ

pub record LogsResult : Type 0 where
  pub schema_version : Text
  pub run_id : Text
  pub after_cursor : ℕ
  pub records : List LogRecord
  pub next_after_cursor : ℕ
  pub has_more : Bool
  pub captured_bytes : ℕ
  pub dropped_bytes : ℕ
  pub terminal : Bool

pub record WaitResult : Type 0 where
  pub schema_version : Text
  pub condition : WaitCondition
  pub run : RunView

pub record StopResult : Type 0 where
  pub schema_version : Text
  pub already_terminal : Bool
  pub run : RunView

pub record ListResult : Type 0 where
  pub schema_version : Text
  pub runs : List RunView

pub record LeasesResult : Type 0 where
  pub schema_version : Text
  pub run_id : Text
  pub supervisor_active : Bool
  pub leases : LeaseState

pub record GcEntry : Type 0 where
  pub run_id : Text
  pub status : RunStatus
  pub age_ms : ℕ
  pub eligible : Bool
  pub reason : String
  pub deleted : Bool

pub record GcResult : Type 0 where
  pub schema_version : Text
  pub execute : Bool
  pub older_than_ms : ℕ
  pub entries : List GcEntry

-- A view is orphaned exactly when its status is live and its supervisor is not active.
pub new_view-orphaned :
    (s : RunState) (a : Bool)
    → (new_view s a).observed_status ≡ orphaned
    → (is_live s.status ≡ true) × (a ≡ false)
unfolding new_view
new_view-orphaned s a h = ground arith
