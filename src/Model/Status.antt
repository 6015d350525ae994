-- ===== src/Model/Status.antt =====
-- src/model.rs: the lifecycle states and the enumerations of a run.
use procherd.Prelude.{◌≡◌, Bool, true, false, not, arith}

pub data RunStatus : Type 0 where
  created starting running stopping exited failed stopped : RunStatus

unfoldable pub is_terminal : RunStatus → Bool
is_terminal exited = true
is_terminal failed = true
is_terminal stopped = true
is_terminal _ = false

unfoldable pub is_live : RunStatus → Bool
is_live created = true
is_live starting = true
is_live running = true
is_live stopping = true
is_live _ = false

pub data EnvironmentMode : Type 0 where
  inherit : EnvironmentMode

pub data TreeControl : Type 0 where
  unix_process_group windows_job_object : TreeControl

pub data ExitReason : Type 0 where
  process_exited spawn_failed stop_requested runtime_limit supervisor_failed : ExitReason

pub data ObservedStatus : Type 0 where
  consistent orphaned : ObservedStatus

pub data PortLeaseGuarantee : Type 0 where
  coordinated_best_effort : PortLeaseGuarantee

pub data LogStream : Type 0 where
  stdout stderr : LogStream

pub data LogEncoding : Type 0 where
  base64 : LogEncoding

pub data WaitCondition : Type 0 where
  running ready exit : WaitCondition

-- `==` on streams.
abbrev pub stream_eq : LogStream → LogStream → Bool
stream_eq stdout stdout = true
stream_eq stderr stderr = true
stream_eq _ _ = false

-- Every status is exactly one of terminal and live.
pub is_live-is_terminal : (s : RunStatus) → is_live s ≡ not (is_terminal s)
unfolding is_live is_terminal
is_live-is_terminal s = ground arith
