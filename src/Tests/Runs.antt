-- ===== src/Tests/Runs.antt =====
-- The token, the request and the listing of src/store.rs, the listing of src/cli.rs and the delivery of
-- leases in src/leases.rs at concrete values.
use procherd.Prelude.{◌≡◌, refl, true, false, none, List, [], ◌∷◌, ◌&&◌, arith, any}
use procherd.Prelude.Texts.{Text, codes, text_eq, strip_prefix}
use procherd.Prelude.Order.{is_among, map_get, map_collect, sort}
use procherd.Prelude.Occurs.{windows}
use procherd.Prelude.Numbers.{to_decimal}
use procherd.Error.{ok, for_each}
use procherd.Hex.{encode_lower}
use procherd.Model.Status.{RunStatus, is_live}
use procherd.Model.Run.{RunState, requested}
use procherd.Model.Documents.{ListResult, new_view}
use procherd.Leases.Names.{validate_requests, validate_names}
use procherd.Leases.Allocation.{LeaseAllocation}
use procherd.Leases.Placeholders.{replace_placeholders, replace_all}
use procherd.Leases.Populate.{populate_state, find_reserved}
use procherd.Store.Files.{read_json, ensure_regular_file}
use procherd.Store.RunId.{canonical_run_id, validate_run_id}
use procherd.Store.Runs.{
  Store, Entry, directory, find_entry, run_dir, read_state, supervisor_active,
  validate_persisted_run_state,
}
use procherd.Store.Creation.{create_run}
use procherd.Store.Creation.Token.{create_run-read_owner_token}
use procherd.Store.Token.{read_owner_token}
use procherd.Store.Request.{write_stop_request}
use procherd.Store.Refinement.{
  Operation, create, ask, perform, perform_all, entries_of, AbstractSteps,
  perform_all-AbstractSteps,
}
use procherd.Store.Listing.{list_run_ids, list_run_ids-is_among, Descending, is_run}
use procherd.Cli.Observe.{Readings, load_view, observe_state_and_activity}
use procherd.Cli.Views.{list, list-run_ids, run_ids}
use procherd.Tests.Samples.{run_name, one_ulid, sample_state, sample_spec}
use procherd.Tests.Start.{from_ok, random_bytes}
use procherd.Tests.Store.{dir_of, one_file}
use procherd.Tests.Supervisor.{request}

abbrev token_store : Store
token_store = from_ok one_file (
    create_run one_ulid (λ _. none) 900 300 one_file (sample_state RunStatus.created) sample_spec
      (encode_lower random_bytes))

create_run-read_owner_token_example :
    read_owner_token one_ulid token_store run_name ≡ ok (encode_lower random_bytes)
unfolding create_run canonical_run_id find_entry text_eq strip_prefix
create_run-read_owner_token_example =
    create_run-read_owner_token one_ulid (λ _. none) 900 300 one_file token_store
      (sample_state RunStatus.created) sample_spec random_bytes refl (ground arith) refl

-- One run beside a file, a link and a directory with another name.
abbrev mixed_store : Store
mixed_store = record {
  root = codes "/state";
  entries =
      (codes "port-leases.lock", Entry.other)
      ∷ (run_name, directory (dir_of (sample_state RunStatus.running)))
      ∷ (codes "run_old", Entry.symlink)
      ∷ (codes "cache", directory (dir_of (sample_state RunStatus.exited)))
      ∷ [];
}

abbrev requested_store : Store
requested_store = from_ok one_file (write_stop_request one_ulid none 120 mixed_store request)

list_run_ids-is_among_example :
    Descending one_ulid (λ _. true) (run_name ∷ [])
    × ((z : Text)
        → is_among z (run_name ∷ [])
          ≡ any (λ e. is_run one_ulid (λ _. true) e && text_eq z e.0) mixed_store.entries)
unfolding list_run_ids validate_run_id canonical_run_id text_eq strip_prefix sort
list_run_ids-is_among_example =
    list_run_ids-is_among one_ulid (λ _. true) none mixed_store (run_name ∷ []) refl

abbrev mixed_readings : Text → Readings
mixed_readings _ = record { before = mixed_store; at_lock = mixed_store; fresh = mixed_store }

abbrev listed : ListResult
listed = record {
  schema_version = codes "procherd.list.v1";
  runs = new_view (sample_state RunStatus.running) false ∷ [];
}

list-run_ids_example :
    Descending one_ulid (λ _. true) (run_ids one_ulid listed)
    × ((z : Text)
        → is_among z (run_ids one_ulid listed)
          ≡ any (λ e. is_run one_ulid (λ _. true) e && text_eq z e.0) mixed_store.entries)
unfolding list list_run_ids validate_run_id canonical_run_id text_eq strip_prefix sort for_each
    load_view observe_state_and_activity read_state run_dir find_entry supervisor_active
    ensure_regular_file read_json validate_persisted_run_state validate_requests validate_names
    is_live
list-run_ids_example = list-run_ids one_ulid (λ _. true) none mixed_store mixed_readings listed refl

-- A run with a port and a directory, and an argument that names both.
abbrev leasing_state : RunState
leasing_state = record (sample_state RunStatus.starting) {
  leases = requested (codes "web" ∷ []) (codes "work" ∷ []);
  command = record (sample_state RunStatus.starting).command {
    args = codes "{port:web}:{temp:work}" ∷ [];
  };
}

abbrev allocation : LeaseAllocation
allocation = record {
  run_id = run_name;
  ports = record { name = codes "web"; port = 8080; listener = true } ∷ [];
  environment = [];
  registry_released = false;
}

abbrev temp_paths : List (Text × Text)
temp_paths = (codes "work", codes "/tmp/work") ∷ []

abbrev delivered : LeaseAllocation × RunState
delivered =
    from_ok (allocation, leasing_state)
      (populate_state (λ _. true) allocation leasing_state 5 temp_paths)

-- The argument is filled.
delivered_args : delivered.1.command.args ≡ codes "8080:/tmp/work" ∷ []
unfolding populate_state requested for_each replace_placeholders replace_all windows find_reserved
    map_get map_collect text_eq strip_prefix to_decimal
delivered_args = refl

-- A run is created and then asked to stop.
abbrev operations : List Operation
operations =
    create (λ _. none) 900 300 (sample_state RunStatus.created) sample_spec (codes "token")
    ∷ ask none 120 request
    ∷ []

abbrev performed : Store
performed = from_ok one_file (perform_all one_ulid operations one_file)

perform_all-AbstractSteps_example :
    AbstractSteps one_ulid operations (entries_of one_file) (entries_of performed)
unfolding perform_all perform create_run write_stop_request canonical_run_id run_dir find_entry
    text_eq strip_prefix
perform_all-AbstractSteps_example =
    perform_all-AbstractSteps one_ulid operations one_file performed refl
