-- ===== src/Leases/Populate.antt =====
-- src/leases.rs: `LeaseAllocation::acquire` and `populate_state`. The created directories and the
-- reserved ports come from the file system and the registry, and are arguments.
pub mod Filled
use procherd.Prelude.{
  ℕ, ◌≡◌, refl, ap, ◌∙◌, Bool, true, false, not, Option, none, some, List, [], ◌∷◌, ◌++◌, map, All,
  is_some, arith, if◌then◌else◌, Option-cases, inl, inr,
}
use procherd.Prelude.Texts.{Text, codes, text, format, text_eq, text_eq→eq}
use procherd.Prelude.Numbers.{to_decimal}
use procherd.Prelude.Order.{sort, dedup, map_get, map_collect}
use procherd.Error.{
  AppError, Result, ok, err, ◌>>=◌, ◌>>◌, refuse_if, integrity_error, operational, Kind, ok_or,
  for_each, Zip, for_each-Zip, Zip-All, >>=-eq-ok, ok_injective, refuse_if-ok,
}
use procherd.Model.Readiness.{ReadinessCondition, tcp, http, file, log, port_lease, ReadinessCheck}
use procherd.Model.Run.{PortLease, TempDirectoryLease, LeaseState, LeaseRequests, RunState}
use procherd.Leases.Names.{validate_names, environment_name}
use procherd.Leases.Registry.{ReservedPort}
use procherd.Leases.Allocation.{LeaseAllocation}
use procherd.Leases.Placeholders.{replace_placeholders, replace_placeholders-none, has_placeholder}
use procherd.Store.RunId.{Ulid, canonical_run_id}

unfoldable pub find_reserved : Text → List ReservedPort → Option ReservedPort
find_reserved name [] = none
find_reserved name (r ∷ rs) = if text_eq r.name name then some r else find_reserved name rs

-- 127.0.0.1:PORT
abbrev pub loopback_at : Text → Text
loopback_at port = codes "127.0.0.1:" ++ port

abbrev filled_port : ℕ → PortLease → ReservedPort → PortLease
filled_port at l r = record l {
  address = some (loopback_at (to_decimal r.port));
  port = some r.port;
  acquired_at_ms = some at;
}

fill_port : List ReservedPort → ℕ → PortLease → Result PortLease
unfolding find_reserved
fill_port rs at l = do
  r ←
      ok_or (integrity_error (format "port lease state does not match requests" []))
        (find_reserved l.name rs)
  ok (filled_port at l r)

fill_temp : List (Text × Text) → ℕ → TempDirectoryLease → Result TempDirectoryLease
fill_temp paths at l = do
  path ←
      ok_or (integrity_error (format "temporary-directory lease state does not match requests" []))
        (map_get l.name paths)
  ok (record l { path = some path; acquired_at_ms = some at })

abbrev or_empty : Option Text → Text
or_empty none = []
or_empty (some s) = s

abbrev decimal_port : Option ℕ → Text
decimal_port none = []
decimal_port (some p) = to_decimal p

-- The variables that the two loops push, from the leases that they have filled.
pub port_variable : PortLease → Text × Text
port_variable l = (environment_name (codes "PORT") l.name, decimal_port l.port)

pub temp_variable : TempDirectoryLease → Text × Text
temp_variable l = (environment_name (codes "TEMP") l.name, or_empty l.path)

fill_condition : List (Text × Text) → ReadinessCondition → Result ReadinessCondition
fill_condition ports (port_lease name) = do
  port ←
      ok_or (integrity_error (format "readiness references unknown port lease {}" (text name ∷ [])))
        (map_get name ports)
  ok (tcp (loopback_at port))
fill_condition ports (tcp a) = ok (tcp a)
fill_condition ports (http a) = ok (http a)
fill_condition ports (file a) = ok (file a)
fill_condition ports (log a) = ok (log a)

fill_check : List (Text × Text) → ReadinessCheck → Result ReadinessCheck
unfolding fill_condition
fill_check ports c = do
  condition ← fill_condition ports c.condition
  ok (record c { condition = condition })

-- `path.to_str()`
utf8_path : (Text → Bool) → Text × Text → Result (Text × Text)
utf8_path is_utf8 (name, path) = do
  refuse_if (not (is_utf8 path)) (
      operational Kind.lease_path (format "temporary lease path is not UTF-8: {}" (text path ∷ [])))
  ok (name, path)

abbrev injected : List (Text × Text) → List Text
injected = map (λ v. v.0)

populated :
    List PortLease → List TempDirectoryLease → List Text → List ReadinessCheck → RunState → RunState
unfolding port_variable temp_variable
populated ports temps args checks s =
    let variables = map port_variable ports ++ map temp_variable temps in
    record s {
      leases = record { ports = ports; temp_directories = temps };
      command = record s.command {
        args = args;
        environment = record s.command.environment {
          injected_names =
              dedup (sort (s.command.environment.injected_names ++ injected variables));
        };
      };
      readiness = record s.readiness { checks = checks };
    }

-- `temp_paths` is in the order of its keys.
unfoldable pub populate_state :
    (Text → Bool)
    → LeaseAllocation
    → RunState
    → ℕ
    → List (Text × Text)
    → Result (LeaseAllocation × RunState)
unfolding fill_port fill_temp fill_check utf8_path populated
populate_state is_utf8 a s at temp_paths = do
  let port_values = map_collect (map (λ (r : ReservedPort). (r.name, to_decimal r.port)) a.ports)
  temp_values ← for_each (utf8_path is_utf8) temp_paths
  ports ← for_each (fill_port a.ports at) s.leases.ports
  temps ← for_each (fill_temp temp_paths at) s.leases.temp_directories
  args ← for_each (λ v. replace_placeholders v port_values temp_values) s.command.args
  checks ← for_each (fill_check port_values) s.readiness.checks
  ok (
    record a {
      environment = a.environment ++ (map port_variable ports ++ map temp_variable temps);
    },
    populated ports temps args checks s,
  )

-- `temps` and `reserved` are the results of `create_temp_directories` and `reserve_ports`. The
-- registry is released again when the state cannot be filled.
unfoldable pub acquire :
    Ulid
    → (Text → Bool)
    → ℕ
    → Result (List (Text × Text))
    → Result (List ReservedPort)
    → LeaseRequests
    → RunState
    → Result (LeaseAllocation × RunState)
acquire u is_utf8 at temps reserved requests s = do
  run_id ← canonical_run_id u s.run_id
  validate_names requests.port_names
  validate_names requests.temp_directory_names
  paths ← temps
  ports ← reserved
  populate_state is_utf8
      (record { run_id = run_id; ports = ports; environment = []; registry_released = false }) s at
      paths
