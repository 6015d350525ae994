-- ===== src/Tests/Samples.antt =====
-- Sample values of the model, for src/: a run's state and its documents, and simple stand-ins for
-- the hash, the base64 text and the run identifiers of other libraries.
use procherd.Prelude.{true, false, none, some, [], ◌++◌, if◌then◌else◌}
use procherd.Prelude.Texts.{Text, codes, text_eq}
use procherd.Model.Status.{RunStatus, inherit, unix_process_group}
use procherd.Model.Readiness.{ReadinessState, new_readiness, ReadinessCondition}
use procherd.Model.Run.{CommandSpec, RunState}
use procherd.Model.Documents.{SupervisorSpec, run_schema_version}
use procherd.Logs.Writer.{Sha256, Base64}
use procherd.Store.RunId.{Ulid}

abbrev pub ulid_text : Text
ulid_text = codes "01ARZ3NDEKTSV4RRFFQ69G5FAV"

abbrev pub run_name : Text
run_name = codes "run_01ARZ3NDEKTSV4RRFFQ69G5FAV"

-- One identifier.
abbrev pub one_ulid : Ulid
one_ulid = record {
  Ident = Unit;
  parse = λ s. if text_eq s ulid_text then some tt else none;
  print = λ _. ulid_text;
}

-- A hash that keeps its input, and a base64 text that is the bytes.
abbrev pub plain_hash : Sha256
plain_hash = record { Hasher = Text; start = []; update = λ h s. h ++ s; finalize = λ h. h }

abbrev pub plain_base64 : Base64
plain_base64 = record { encode = λ s. s; decode = λ s. some s }

abbrev pub sample_command : CommandSpec
sample_command = record {
  program = codes "server";
  args = [];
  working_directory = codes "/srv";
  environment = record {
    mode = inherit;
    inherited_name_count = 0;
    inherited_names_sha256 = [];
    injected_names = [];
  };
}

abbrev pub sample_readiness : ReadinessState
sample_readiness = record {
  status = procherd.Model.Readiness.not_configured;
  timeout_ms = 1000;
  deadline_at_ms = none;
  ready_at_ms = none;
  failure_reason = none;
  checks = [];
}

abbrev pub sample_state : RunStatus → RunState
sample_state status = record {
  schema_version = run_schema_version;
  run_id = run_name;
  status = status;
  created_at_ms = 1;
  updated_at_ms = 2;
  command = sample_command;
  process = record {
    supervisor_pid = some 7;
    process_pid = some 8;
    tree_control = unix_process_group;
  };
  exit = none;
  failure = none;
  readiness = sample_readiness;
  leases = record { ports = []; temp_directories = [] };
  limits = record {
    max_runtime_ms = none;
    runtime_deadline_at_ms = none;
    runtime_grace_ms = 0;
    runtime_limit_triggered_at_ms = none;
  };
  cleanup = record {
    requested_at_ms = none;
    completed_at_ms = none;
    grace_ms = none;
    graceful_signal_supported = true;
    force_used = false;
    descendant_cleanup_triggered = false;
  };
  logs = record {
    next_cursor = 3;
    captured_bytes = 4;
    dropped_bytes = 0;
    max_bytes = 100;
    stdout_sha256 = none;
    stderr_sha256 = none;
  };
}

abbrev pub sample_spec : SupervisorSpec
sample_spec = record {
  schema_version = codes "procherd.supervisor-spec.v1";
  run_id = run_name;
  owner_token = codes "token";
  command = sample_command;
  max_log_bytes = 100;
  readiness = sample_readiness;
  lease_requests = record { port_names = []; temp_directory_names = [] };
  max_runtime_ms = none;
  runtime_grace_ms = 0;
}
