-- ===== src/Tests/Start.antt =====
-- The start command of src/cli.rs at concrete values.
use procherd.Prelude.{ℕ, ◌≡◌, ◌≢◌, refl, true, false, none, some, List, [], ◌∷◌, inr, arith}
use procherd.Prelude.Texts.{Text, codes, text_eq, strip_prefix}
use procherd.Prelude.Numbers.{parse_uint}
use procherd.Error.{Result, ok, err, from_io, for_each}
use procherd.Model.Status.{RunStatus}
use procherd.Leases.Names.{validate_requests, validate_names, valid_name}
use procherd.Readiness.Conditions.{
  tcp_conditions, http_conditions, file_conditions, log_conditions, port_conditions,
  build_conditions, local_socket_addresses,
}
use procherd.Store.Files.{regular}
use procherd.Store.Runs.{Store, validate_persisted_run_state}
use procherd.Model.Documents.{StopRequest}
use procherd.Supervisor.Startup.{read_documents}
use procherd.Cli.Durations.{parse_duration, strip_suffix}
use procherd.Cli.Start.{
  StartCommand, PlanEnv, Plan, optional_duration, bad_runtime, into_string, split_command,
  owner_token_of, check_options, plan,
}
use procherd.Cli.Start.Accepted.{plan-read_documents, plan-IsBounded, IsBounded}
use procherd.Cli.Start.Awaiting.{StartTurn, GoodOutcome, start_loop, start_loop-Outcome}
use procherd.Cli.Start.Awaiting.Returns.{AsksAt, start_loop-returns}
use procherd.Cli.Start.Whole.{StartEnv, Started, start}
use procherd.Tests.Samples.{run_name, one_ulid, plain_hash, sample_state, sample_spec}
use procherd.Tests.Readiness.{one_host}
use procherd.Tests.Startup.{boot_env}

-- Thirty-two bytes.
abbrev pub random_bytes : Text
random_bytes =
    0x00 ∷ 0x01 ∷ 0x02 ∷ 0x03 ∷ 0x04 ∷ 0x05 ∷ 0x06 ∷ 0x07 ∷ 0x10 ∷ 0x11 ∷ 0x12 ∷ 0x13 ∷ 0x14 ∷ 0x15
    ∷ 0x16 ∷ 0x17 ∷ 0x20 ∷ 0x21 ∷ 0x22 ∷ 0x23 ∷ 0x24 ∷ 0x25 ∷ 0x26 ∷ 0x27 ∷ 0xf0 ∷ 0xf1 ∷ 0xf2
    ∷ 0xf3 ∷ 0xf4 ∷ 0xf5 ∷ 0xf6 ∷ 0xff ∷ []

abbrev plan_env : PlanEnv one_ulid
plan_env = record {
  current_dir = ok (codes "/srv");
  canonicalize = λ p. inr p;
  is_dir = λ _. true;
  is_utf8 = λ _. true;
  ulid = tt;
  random = inr random_bytes;
  variables = codes "PATH" ∷ codes "HOME" ∷ codes "PATH" ∷ [];
  unix = true;
  now = 1;
}

abbrev options : StartCommand
options = record {
  cwd = none;
  max_log_bytes = 4096;
  startup_timeout = codes "5s";
  max_runtime = some (codes "1h");
  runtime_grace = codes "500ms";
  ready_tcp = codes "localhost:80" ∷ [];
  ready_http = [];
  ready_file = [];
  ready_log = codes "up" ∷ [];
  readiness_timeout = codes "30s";
  lease_port = codes "web" ∷ [];
  lease_temp_dir = [];
  ready_port = codes "web" ∷ [];
  command = codes "server" ∷ codes "--fast" ∷ [];
}

abbrev pub from_ok {ℓ} : {A : Type ℓ} → A → Result A → A
from_ok d (ok a) = a
from_ok d (err e) = d

abbrev planned : Plan
planned =
    from_ok
      (record {
        state = sample_state RunStatus.created;
        spec = sample_spec;
        owner_token = [];
        startup_timeout = 0;
      })
      (plan one_host one_ulid plain_hash plan_env options)

plan-IsBounded_example : IsBounded one_host one_ulid plain_hash planned
unfolding plan check_options parse_duration strip_suffix parse_uint optional_duration bad_runtime
    validate_requests validate_names valid_name build_conditions tcp_conditions http_conditions
    file_conditions log_conditions port_conditions local_socket_addresses into_string split_command
    for_each text_eq strip_prefix owner_token_of
plan-IsBounded_example = plan-IsBounded one_host one_ulid plain_hash plan_env options planned refl

plan-read_documents_example :
    (planned.state.status ≡ RunStatus.created)
    × (validate_persisted_run_state one_ulid planned.state ≡ ok tt)
    × ((read_documents boot_env (record {
      spec_file = regular 600 (inr planned.spec);
      state_file = regular 900 (inr planned.state);
    })).0
        ≡ ok (planned.spec, planned.state))
unfolding plan check_options parse_duration strip_suffix parse_uint optional_duration bad_runtime
    validate_requests validate_names valid_name build_conditions tcp_conditions http_conditions
    file_conditions log_conditions port_conditions local_socket_addresses into_string split_command
    for_each text_eq strip_prefix owner_token_of
plan-read_documents_example =
    plan-read_documents one_host one_ulid plain_hash plan_env options planned boot_env 600 900 refl
      refl refl (omega arith) (omega arith) refl

abbrev turn_of : RunStatus → ℕ → StartTurn
turn_of status clock = record { observed = ok (sample_state status, true); clock = clock }

-- The run starts in the second iteration.
abbrev start_turns : List StartTurn
start_turns =
    turn_of RunStatus.starting 7 ∷ turn_of RunStatus.running 27 ∷ turn_of RunStatus.running 37 ∷ []

start_loop-Outcome_example :
    GoodOutcome
      (λ _. codes "failed")
      run_name
      (codes "token")
      5000
      (start_loop (λ _. codes "failed") run_name (codes "token") 5000 7 3 false start_turns)
start_loop-Outcome_example =
    start_loop-Outcome (λ _. codes "failed") run_name (codes "token") 5000 7 3 false start_turns

-- The timeout is 40 ms, and the run stays in its first states.
abbrev slow_turns : List StartTurn
slow_turns =
    turn_of RunStatus.created 7
    ∷ turn_of RunStatus.starting 27
    ∷ turn_of RunStatus.starting 47
    ∷ turn_of RunStatus.starting 67
    ∷ turn_of RunStatus.starting 87
    ∷ []

start_loop-returns_example :
    ((start_loop (λ _. codes "failed") run_name (codes "token") 40 7 3 false slow_turns).result
      ≢ ok none)
    × ((q : StopRequest)
        → (start_loop
            (λ _. codes "failed")
            run_name
            (codes "token")
            40
            7
            3
            false
            slow_turns).request
          ≡ some q
        → AsksAt (λ _. codes "failed") run_name (codes "token") 40 7 3 false slow_turns)
start_loop-returns_example =
    start_loop-returns (λ _. codes "failed") run_name (codes "token") 40 7 3 false slow_turns
      (omega arith, (omega arith, (omega arith, (omega arith, (omega arith, tt))))) (omega arith)

abbrev no_runs : Store
no_runs = record { root = codes "/state"; entries = [] }

abbrev start_env : StartEnv one_ulid
start_env = record {
  planning = plan_env;
  failure = λ _. none;
  state_len = 900;
  spec_len = 600;
  launch = err (from_io (codes "no memory"));
  rewrite = none;
  failed_len = 950;
  started_at = 7;
  shown = λ _. codes "failed";
  shown_error = λ _. codes "error";
  failed_at = 4;
  exited_at = 4;
  requested_at = 4;
  turns = start_turns;
}

abbrev started : Started
started =
    from_ok (record { store = no_runs; step = record { request = none; result = ok none } })
      (start one_host one_ulid plain_hash start_env options no_runs)
