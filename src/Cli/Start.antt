-- ===== src/Cli/Start.antt =====
-- src/cli.rs: `start` up to the creation of the run. What the operating system and the random number
-- generator answer is a `PlanEnv`. Durations are in milliseconds.
pub mod Accepted
mod Checks
pub mod Awaiting
pub mod Whole
use procherd.Prelude.{
  ℕ, ◌+◌, ◌*◌, Bool, true, false, not, ◌&&◌, ◌||◌, Option, none, some, List, [], ◌∷◌, ◌++◌, ◌⊎◌,
  inl, inr, length, is_empty, ltb, leb, ◌==◌, u64_max, if◌then◌else◌,
}
use procherd.Prelude.Texts.{Text, codes, text, format}
use procherd.Prelude.Order.{sort, dedup}
use procherd.Error.{
  AppError, Result, ok, err, ◌>>=◌, ◌>>◌, refuse_if, ok_or, for_each, usage_error, operational,
  randomness,
}
use procherd.Hex.{encode_lower}
use procherd.Model.Status.{
  RunStatus, EnvironmentMode, inherit, TreeControl, unix_process_group, windows_job_object,
}
use procherd.Model.Readiness.{ReadinessCondition, ReadinessState, new_readiness}
use procherd.Model.Run.{RunState, CommandSpec, for_platform, new_summary, requested, LeaseRequests}
use procherd.Model.Documents.{SupervisorSpec, run_schema_version}
use procherd.Leases.Names.{validate_requests}
use procherd.Logs.Writer.{Sha256}
use procherd.Readiness.Conditions.{Net, build_conditions}
use procherd.Store.RunId.{Ulid, run_prefix}
use procherd.Cli.Durations.{parse_duration}

-- The arguments of `start`; `command` holds the bytes of the program and its arguments.
pub record StartCommand : Type 0 where
  pub cwd : Option Text
  pub max_log_bytes : ℕ
  pub startup_timeout : Text
  pub max_runtime : Option Text
  pub runtime_grace : Text
  pub ready_tcp : List Text
  pub ready_http : List Text
  pub ready_file : List Text
  pub ready_log : List Text
  pub readiness_timeout : Text
  pub lease_port : List Text
  pub lease_temp_dir : List Text
  pub ready_port : List Text
  pub command : List Text

pub record PlanEnv (u : Ulid) : Type 0 where
  pub current_dir : Result Text
  pub canonicalize : Text → Text ⊎ Text  -- an error's text, or the path
  pub is_dir : Text → Bool
  pub is_utf8 : Text → Bool
  pub ulid : u.Ident  -- `Ulid::generate`
  pub random : Text ⊎ Text  -- the error of `getrandom::fill`, or 32 bytes
  pub variables : List Text  -- the names of the environment variables that are UTF-8
  pub unix : Bool
  pub now : ℕ

-- What is created: the two documents and the token; and the limit of the loop after it.
pub record Plan : Type 0 where
  pub state : RunState
  pub spec : SupervisorSpec
  pub owner_token : Text
  pub startup_timeout : ℕ

unfoldable pub optional_duration : Option Text → Result (Option ℕ)
optional_duration none = ok none
optional_duration (some value) = do d ← parse_duration value; ok (some d)

-- `is_some_and` of the maximal runtime.
unfoldable pub bad_runtime : Option ℕ → Bool
bad_runtime none = false
bad_runtime (some d) = d == 0 || ltb (30 * 24 * 60 * 60 * 1000) d

abbrev or_current : Option Text → Text → Text
or_current none dir = dir
or_current (some cwd) dir = cwd

abbrev resolved : Text → Text ⊎ Text → Result Text
resolved cwd (inl e) =
    err (usage_error (format "cannot resolve working directory {}: {}" (text cwd ∷ text e ∷ [])))
resolved cwd (inr path) = ok path

-- OsString::into_string
unfoldable pub into_string : (Text → Bool) → Text → Result Text
into_string is_utf8 value =
    if is_utf8 value
    then ok value
    else err (usage_error (format "program and arguments must be valid UTF-8 in version 0.1" []))

-- `first().filter(..)`, and the rest.
unfoldable pub split_command : List Text → Result (Text × List Text)
split_command [] = err (usage_error (format "program must not be empty" []))
split_command (program ∷ args) =
    if is_empty program
    then err (usage_error (format "program must not be empty" []))
    else ok (program, args)

unfoldable pub owner_token_of : Text ⊎ Text → Result Text
owner_token_of (inl e) =
    err (operational randomness (format "cannot create run owner token: {}" (text e ∷ [])))
owner_token_of (inr bytes) = ok (encode_lower bytes)

-- `u64::try_from(..).unwrap_or(u64::MAX)`
abbrev pub to_u64 : ℕ → ℕ
to_u64 n = if leb n u64_max then n else u64_max

abbrev to_u64_option : Option ℕ → Option ℕ
to_u64_option none = none
to_u64_option (some n) = some (to_u64 n)

unfoldable pub platform_tree_control : Bool → TreeControl
platform_tree_control true = unix_process_group
platform_tree_control false = windows_job_object

module _ (sha : Sha256) where
  names_digest_from : sha.Hasher → List Text → sha.Hasher
  names_digest_from hasher [] = hasher
  names_digest_from hasher (name ∷ names) =
      names_digest_from (sha.update (sha.update hasher name) (0 ∷ [])) names

  unfoldable pub environment_names_digest : List Text → Text
  unfolding names_digest_from
  environment_names_digest names = encode_lower (sha.finalize (names_digest_from sha.start names))

-- What the checks leave: the numbers, the requests and the texts of the two documents.
pub record Checked : Type 0 where
  pub max_log_bytes : ℕ
  pub startup_timeout : ℕ
  pub max_runtime : Option ℕ
  pub runtime_grace : ℕ
  pub cwd : Text
  pub readiness_timeout : ℕ
  pub lease_requests : LeaseRequests
  pub conditions : List ReadinessCondition
  pub program : Text
  pub args : List Text

module _ (n : Net) (u : Ulid) (sha : Sha256) where
  -- The checks of the arguments, in their order.
  unfoldable pub check_options : PlanEnv u → StartCommand → Result Checked
  check_options env o = do
    refuse_if (o.max_log_bytes == 0 || ltb (1024 * 1024 * 1024) o.max_log_bytes)
        (usage_error (format "max log bytes must be between 1 and 1073741824" []))
    startup_timeout ← parse_duration o.startup_timeout
    refuse_if (startup_timeout == 0 || ltb (60 * 1000) startup_timeout)
        (usage_error (format "startup timeout must be greater than zero and at most 60s" []))
    max_runtime ← optional_duration o.max_runtime
    refuse_if (bad_runtime max_runtime)
        (usage_error (format "max runtime must be greater than zero and at most 30d" []))
    runtime_grace ← parse_duration o.runtime_grace
    refuse_if (ltb (5 * 60 * 1000) runtime_grace)
        (usage_error (format "runtime grace must be at most 5m" []))
    dir ← env.current_dir
    let given = or_current o.cwd dir
    cwd ← resolved given (env.canonicalize given)
    refuse_if (not (env.is_dir cwd))
        (usage_error (format "working directory is not a directory: {}" (text cwd ∷ [])))
    readiness_timeout ← parse_duration o.readiness_timeout
    refuse_if (readiness_timeout == 0 || ltb (60 * 60 * 1000) readiness_timeout)
        (usage_error (format "readiness timeout must be greater than zero and at most 1h" []))
    requests ← validate_requests o.lease_port o.lease_temp_dir
    conditions ←
        build_conditions n o.ready_tcp o.ready_http o.ready_file o.ready_log o.ready_port
          requests.port_names cwd
    values ← for_each (into_string env.is_utf8) o.command
    (program, args) ← split_command values
    ok (record {
      max_log_bytes = o.max_log_bytes;
      startup_timeout = startup_timeout;
      max_runtime = max_runtime;
      runtime_grace = runtime_grace;
      cwd = cwd;
      readiness_timeout = readiness_timeout;
      lease_requests = requests;
      conditions = conditions;
      program = program;
      args = args;
    })

  new_command : PlanEnv u → Checked → CommandSpec
  new_command env c =
      let names = dedup (sort env.variables) in
      record {
        program = c.program;
        args = c.args;
        working_directory = c.cwd;
        environment = record {
          mode = inherit;
          inherited_name_count = length names;
          inherited_names_sha256 = environment_names_digest sha names;
          injected_names = [];
        };
      }

  abbrev run_id_of : PlanEnv u → Text
  run_id_of env = run_prefix ++ u.print env.ulid

  new_state : PlanEnv u → Checked → RunState
  unfolding new_command
  new_state env c = record {
    schema_version = run_schema_version;
    run_id = run_id_of env;
    status = RunStatus.created;
    created_at_ms = env.now;
    updated_at_ms = env.now;
    command = new_command env c;
    process = record {
      supervisor_pid = none;
      process_pid = none;
      tree_control = platform_tree_control env.unix;
    };
    exit = none;
    failure = none;
    readiness = new_readiness c.conditions (to_u64 c.readiness_timeout) env.now;
    leases = requested c.lease_requests.port_names c.lease_requests.temp_directory_names;
    limits = record {
      max_runtime_ms = to_u64_option c.max_runtime;
      runtime_deadline_at_ms = none;
      runtime_grace_ms = to_u64 c.runtime_grace;
      runtime_limit_triggered_at_ms = none;
    };
    cleanup = for_platform env.unix;
    logs = new_summary c.max_log_bytes;
  }

  new_spec : PlanEnv u → Checked → Text → SupervisorSpec
  unfolding new_command
  new_spec env c owner_token = record {
    schema_version = codes "procherd.supervisor-spec.v1";
    run_id = run_id_of env;
    owner_token = owner_token;
    command = new_command env c;
    max_log_bytes = c.max_log_bytes;
    readiness = new_readiness c.conditions (to_u64 c.readiness_timeout) env.now;
    lease_requests = c.lease_requests;
    max_runtime_ms = to_u64_option c.max_runtime;
    runtime_grace_ms = to_u64 c.runtime_grace;
  }

  unfoldable pub plan : PlanEnv u → StartCommand → Result Plan
  unfolding new_state new_spec
  plan env o = do
    c ← check_options env o
    token ← owner_token_of env.random
    ok (record {
      state = new_state env c;
      spec = new_spec env c token;
      owner_token = token;
      startup_timeout = c.startup_timeout;
    })
