-- ===== src/Store/Creation.antt =====
-- src/store.rs: `create_run`. `failure i` is the error of the i-th file operation, if it fails;
-- what a failed creation leaves behind is not described.
pub mod Token
use mathlib.Core.Path.{subst}
use procherd.Prelude.{
  ℕ, ◌≤◌, ◌≡◌, refl, false, Option, none, some, ◌∷◌, [], ◌++◌, ◌+◌, length, arith, ltb, inr,
}
use procherd.Prelude.Texts.{Text, codes, text_eq, text_eq_refl}
use procherd.Error.{
  Result, ok, err, ◌>>=◌, ◌>>◌, from_io, WriteError, from_write, >>=-eq-ok, ok_injective,
}
use procherd.Model.Run.{RunState}
use procherd.Model.Documents.{SupervisorSpec}
use procherd.Logs.Reader.{missing}
use procherd.Store.RunId.{Ulid, canonical_run_id}
use procherd.Store.Files.{regular, absent, read_json, ensure_regular_file, document_limit}
use procherd.Store.Runs.{
  free, directory, path_in, RunDir, Entry, Store, find_entry, run_dir, read_state,
  supervisor_active, validate_persisted_run_state,
}

abbrev pub unless : Option WriteError → Result (Unit {0})
unless none = ok tt
unless (some e) = err (from_write e)

abbrev no_file : Text
no_file = codes "No such file or directory"

abbrev pub newline : ℕ
newline = 10

-- The new directory: its lock is free, and it holds the state, the specification and the token
-- with a newline after it.
unfoldable pub new_dir : ℕ → ℕ → RunState → SupervisorSpec → Text → RunDir
new_dir state_len spec_len state spec owner_token = record {
  lock = regular 0 (inr free);
  state = regular state_len (inr state);
  spec = regular spec_len (inr spec);
  owner_token = regular (length owner_token + 1) (inr (owner_token ++ (newline ∷ [])));
  stop_request = absent no_file;
  logs = missing no_file;
}

-- `create_new_private_dir`: an existing path is an error.
pub make_dir : Option Entry → Option WriteError → Result (Unit {0})
make_dir (some _) failure = err (from_io (codes "File exists"))
make_dir none failure = unless failure

module _ (u : Ulid) where
  -- The lengths are those of the printed documents.
  unfoldable pub create_run :
      (ℕ → Option WriteError) → ℕ → ℕ → Store → RunState → SupervisorSpec → Text → Result Store
  unfolding make_dir new_dir
  create_run failure state_len spec_len store state spec owner_token = do
    id ← canonical_run_id u state.run_id
    make_dir (find_entry id store.entries) (failure 0)
    unless (failure 1)
    unless (failure 2)
    unless (failure 3)
    unless (failure 4)
    ok (record store {
      entries = (id, directory (new_dir state_len spec_len state spec owner_token)) ∷ store.entries;
    })

  abbrev added : Text → RunDir → Store → Store
  added id d store = record store { entries = (id, directory d) ∷ store.entries }

  pub was_absent :
      (o : Option Entry) (failure : Option WriteError) → make_dir o failure ≡ ok tt → o ≡ none
  unfolding make_dir
  was_absent none failure h = refl
  was_absent (some x) failure h = cc

  created_dir :
      (id run_id : Text) (d : RunDir) (store : Store)
      → canonical_run_id u run_id ≡ ok id
      → run_dir u (added id d store) run_id ≡ ok (path_in store.root id, d)
  unfolding run_dir find_entry
  created_dir id run_id d store e = rw (e, text_eq_refl id) refl

  read_created :
      (id path : Text) (d : RunDir) (store : Store) (state : RunState) (len : ℕ)
      → run_dir u (added id d store) state.run_id ≡ ok (path, d)
      → d.state ≡ regular len (inr state)
      → validate_persisted_run_state u state ≡ ok tt
      → len ≤ document_limit
      → read_state u (added id d store) state.run_id ≡ ok state
  unfolding read_state read_json
  read_created id path d store state len e s v l =
      let fits : ltb document_limit len ≡ false = ground arith in
      rw (e, s, fits, v, text_eq_refl state.run_id) refl

  free_created :
      (id path : Text) (d : RunDir) (store : Store) (run_id : Text)
      → run_dir u (added id d store) run_id ≡ ok (path, d)
      → d.lock ≡ regular 0 (inr free)
      → supervisor_active u (added id d store) run_id ≡ ok false
  unfolding supervisor_active ensure_regular_file
  free_created id path d store run_id e l = rw (e, l) refl

  -- After a run is created with a valid state that fits in a document, that state is what is read of
  -- it, its supervisor is not active, and every other entry of the store is found as before; and
  -- the run had no entry before.
  pub create_run-read_state :
      (failure : ℕ → Option WriteError) (state_len spec_len : ℕ) (store store' : Store)
      (state : RunState) (spec : SupervisorSpec) (owner_token : Text)
      → validate_persisted_run_state u state ≡ ok tt
      → state_len ≤ document_limit
      → create_run failure state_len spec_len store state spec owner_token ≡ ok store'
      → (read_state u store' state.run_id ≡ ok state)
        × (supervisor_active u store' state.run_id ≡ ok false)
        × ((id : Text) × (canonical_run_id u state.run_id ≡ ok id)
            × (find_entry id store.entries ≡ none)
            × ((other : Text)
                → text_eq id other ≡ false
                → find_entry other store'.entries ≡ find_entry other store.entries))
  unfolding create_run find_entry
  create_run-read_state failure state_len spec_len store store' state spec owner_token v fits h =
      let (id, e, h) = >>=-eq-ok (canonical_run_id u state.run_id) _ h in
      let (_, m, h) = >>=-eq-ok (make_dir (find_entry id store.entries) (failure 0)) _ h in
      let (_, _, h) = >>=-eq-ok (unless (failure 1)) _ h in
      let (_, _, h) = >>=-eq-ok (unless (failure 2)) _ h in
      let (_, _, h) = >>=-eq-ok (unless (failure 3)) _ h in
      let (_, _, h) = >>=-eq-ok (unless (failure 4)) _ h in
      let d = new_dir state_len spec_len state spec owner_token in
      let dir = created_dir id state.run_id d store e in
      let same = ok_injective (added id d store) store' h in
      subst
        (λ (s : Store).
          (read_state u s state.run_id ≡ ok state)
          × (supervisor_active u s state.run_id ≡ ok false)
          × ((id : Text) × (canonical_run_id u state.run_id ≡ ok id)
              × (find_entry id store.entries ≡ none)
              × ((other : Text)
                  → text_eq id other ≡ false
                  → find_entry other s.entries ≡ find_entry other store.entries)))
        same
        (
          read_created id (path_in store.root id) d store state state_len dir
              (unfold new_dir in refl) v fits,
          free_created id (path_in store.root id) d store state.run_id dir (unfold new_dir in refl),
          (id, e, was_absent (find_entry id store.entries) (failure 0) m, λ other n. rw n refl),
        )
