-- ===== src/Tests/Store.antt =====
-- src/store.rs and the readings of src/cli.rs at concrete values.
use procherd.Prelude.{◌≡◌, refl, false, none, [], ◌∷◌, ◌++◌, All, arith, inr, length}
use procherd.Prelude.Texts.{Text, codes, text_eq, strip_prefix}
use procherd.Error.{ok}
use procherd.Model.Status.{RunStatus}
use procherd.Model.Run.{RunState}
use procherd.Leases.Names.{validate_requests, validate_names}
use procherd.Logs.Reader.{opened, missing}
use procherd.Store.RunId.{IsPlain, canonical_run_id, canonical_run_id-IsPlain}
use procherd.Store.Files.{regular, absent}
use procherd.Store.Runs.{
  free, Entry, directory, RunDir, Store, find_entry, read_state, supervisor_active,
  validate_persisted_run_state,
}
use procherd.Store.Creation.{create_run, create_run-read_state}
use procherd.Cli.Observe.{Readings}
use procherd.Tests.Samples.{run_name, one_ulid, sample_state, sample_spec}

canonical_run_id-IsPlain_example :
    (run_name ≡ run_name) × (length run_name ≡ 30) × All IsPlain run_name
unfolding canonical_run_id text_eq strip_prefix
canonical_run_id-IsPlain_example =
    canonical_run_id-IsPlain one_ulid (record { print-capital = λ _. ground arith }) run_name
      run_name refl

abbrev pub dir_of : RunState → RunDir
dir_of state = record {
  lock = regular 0 (inr free);
  state = regular 900 (inr state);
  spec = regular 300 (inr sample_spec);
  owner_token = absent (codes "gone");
  stop_request = absent (codes "gone");
  logs = opened [];
}

abbrev store_of : RunState → Store
store_of state = record {
  root = codes "/state";
  entries = (run_name, directory (dir_of state)) ∷ (codes "port-leases.lock", Entry.other) ∷ [];
}

abbrev after_removal : Store
after_removal = record {
  root = codes "/state";
  entries = (codes "port-leases.lock", Entry.other) ∷ [];
}

abbrev live_readings : Readings
live_readings = record {
  before = store_of (sample_state RunStatus.running);
  at_lock = store_of (sample_state RunStatus.running);
  fresh = store_of (sample_state RunStatus.stopping);
}

abbrev pub one_file : Store
one_file = record { root = codes "/state"; entries = (codes "port-leases.lock", Entry.other) ∷ [] }

abbrev created_store : Store
created_store = record {
  root = codes "/state";
  entries =
      (
        run_name,
        directory (record (dir_of (sample_state RunStatus.created)) {
          owner_token = regular 6 (inr (codes "token" ++ (10 ∷ [])));
          stop_request = absent (codes "No such file or directory");
          logs = missing (codes "No such file or directory");
        }),
      )
      ∷ (codes "port-leases.lock", Entry.other)
      ∷ [];
}

create_run-read_state_example :
    (read_state one_ulid created_store run_name ≡ ok (sample_state RunStatus.created))
    × (supervisor_active one_ulid created_store run_name ≡ ok false)
    × ((id : Text) × (canonical_run_id one_ulid run_name ≡ ok id)
        × (find_entry id one_file.entries ≡ none)
        × ((other : Text)
            → text_eq id other ≡ false
            → find_entry other created_store.entries ≡ find_entry other one_file.entries))
unfolding create_run canonical_run_id validate_persisted_run_state validate_requests validate_names
    find_entry text_eq strip_prefix
create_run-read_state_example =
    create_run-read_state one_ulid (λ _. none) 900 300 one_file created_store
      (sample_state RunStatus.created) sample_spec (codes "token") refl (omega arith) refl
