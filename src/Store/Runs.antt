-- ===== src/Store/Runs.antt =====
-- src/store.rs: the store of runs. A run's path in the state root is what the file system says of
-- it; a run directory is its documents and its lock.
use procherd.Prelude.{
  ◌≡◌, refl, sym, not-eq_false, ap, ◌∙◌, Bool, true, false, not, Option, none, some, List, [], ◌∷◌,
  ◌++◌, map, length, ltb, ◌⊎◌, inl, inr, if◌then◌else◌,
}
use procherd.Prelude.Texts.{Text, codes, text, num, format, text_eq, text_eq→eq}
use procherd.Error.{
  AppError, Result, ok, err, ◌>>=◌, ◌>>◌, refuse_if, map_err, integrity_error, not_found_error,
  from_io, followed_by, >>=-eq-ok, ok_injective, refuse_if-ok,
}
use procherd.Model.Run.{RunState, PortLease, TempDirectoryLease}
use procherd.Model.Documents.{SupervisorSpec, StopRequest, run_schema_version}
use procherd.Leases.Names.{validate_requests}
use procherd.Logs.Reader.{LogFile}
use procherd.Store.RunId.{Ulid, canonical_run_id}
use procherd.Store.Files.{Node, regular, read_json, ensure_regular_file, document_limit}

-- What `try_lock` on the lock file answers.
pub data Lock : Type 0 where
  free held : Lock
  lock_error : Text → Lock

pub record RunDir : Type 0 where
  pub lock : Node Lock
  pub state : Node RunState
  pub spec : Node SupervisorSpec
  pub owner_token : Node Text
  pub stop_request : Node StopRequest
  pub logs : LogFile

pub data Entry : Type 0 where
  directory : RunDir → Entry
  symlink other : Entry
  unreadable : Text → Entry

pub record Store : Type 0 where
  pub root : Text
  pub entries : List (Text × Entry)

unfoldable pub find_entry : Text → List (Text × Entry) → Option Entry
find_entry name [] = none
find_entry name ((n, e) ∷ es) = if text_eq n name then some e else find_entry name es

abbrev pub path_in : Text → Text → Text
path_in base name = base ++ (b'/' ∷ name)

abbrev invalid_leases : AppError → AppError
invalid_leases e = integrity_error (followed_by "run state contains invalid leases: " e)

module _ (u : Ulid) where
  unfoldable pub validate_persisted_run_state : RunState → Result (Unit {0})
  validate_persisted_run_state state = do
    refuse_if (not (text_eq state.schema_version run_schema_version)) (
        integrity_error (format "unsupported run state schema {}" (text state.schema_version ∷ [])))
    _ ←
        map_err (λ _. integrity_error (format "run state contains an invalid run ID" []))
          (canonical_run_id u state.run_id)
    _ ← map_err invalid_leases (
        validate_requests (map (λ (l : PortLease). l.name) state.leases.ports)
          (map (λ (l : TempDirectoryLease). l.name) state.leases.temp_directories))
    ok tt

  parsed_state : Text ⊎ RunState → Result RunState
  parsed_state (inl e) = err (integrity_error (format "invalid run state JSON: {}" (text e ∷ [])))
  parsed_state (inr s) = ok s

  -- `parse` is the JSON reader.
  unfoldable pub parse_run_state_document : (Text → Text ⊎ RunState) → Text → Result RunState
  unfolding parsed_state
  parse_run_state_document parse bytes = do
    refuse_if (ltb document_limit (length bytes))
        (integrity_error (format "run state document exceeds {} bytes" (num document_limit ∷ [])))
    state ← parsed_state (parse bytes)
    validate_persisted_run_state state
    ok state

  found_dir : Text → Text → Option Entry → Result RunDir
  found_dir path run_id none = err (not_found_error (format "run not found: {}" (text run_id ∷ [])))
  found_dir path run_id (some symlink) =
      err (integrity_error (format "run directory is a symbolic link: {}" (text path ∷ [])))
  found_dir path run_id (some other) =
      err (integrity_error (format "run path is not a directory: {}" (text path ∷ [])))
  found_dir path run_id (some (directory d)) = ok d
  found_dir path run_id (some (unreadable e)) = err (from_io e)

  -- The path and what is there.
  unfoldable pub run_dir : Store → Text → Result (Text × RunDir)
  unfolding found_dir find_entry
  run_dir store run_id = do
    id ← canonical_run_id u run_id
    d ← found_dir (path_in store.root id) id (find_entry id store.entries)
    ok (path_in store.root id, d)

  unfoldable pub read_state : Store → Text → Result RunState
  read_state store run_id = do
    (path, d) ← run_dir store run_id
    state ← read_json (path_in path (codes "state.json")) d.state
    validate_persisted_run_state state
    refuse_if (not (text_eq state.run_id run_id)) (
        integrity_error (
          format "state run ID {} does not match directory {}"
            (text state.run_id ∷ text run_id ∷ [])))
    ok state

  locked : Node Lock → Result Bool
  locked (regular _ (inr free)) = ok false
  locked (regular _ (inr held)) = ok true
  locked (regular _ (inr (lock_error e))) = err (from_io e)
  locked (regular _ (inl e)) = err (from_io e)
  locked _ = ok false

  unfoldable pub supervisor_active : Store → Text → Result Bool
  unfolding locked
  supervisor_active store run_id = do
    (path, d) ← run_dir store run_id
    ensure_regular_file (path_in path (codes "supervisor.lock")) d.lock
    locked d.lock

  -- The directory of a run is the entry with its identifier.
  pub run_dir-entry :
      (store : Store) (run_id : Text) (x : Text × RunDir)
      → run_dir store run_id ≡ ok x
      → (id : Text) × (canonical_run_id u run_id ≡ ok id)
        × (find_entry id store.entries ≡ some (directory x.1))
        × (path_in store.root id ≡ x.0)
  unfolding run_dir
  run_dir-entry store run_id x h =
      let (id, e, h) = >>=-eq-ok (canonical_run_id u run_id) _ h in
      let (d, f, h) =
        >>=-eq-ok (found_dir (path_in store.root id) id (find_entry id store.entries)) _ h in
      let same = ok_injective (path_in store.root id, d) x h in
      (
        id,
        e,
        found id d (find_entry id store.entries) f
            ∙ ap (λ (x : Text × RunDir). some (directory x.1)) same,
        ap (λ (x : Text × RunDir). x.0) same,
      )
    where
      found :
          (id : Text) (d : RunDir) (o : Option Entry)
          → found_dir (path_in store.root id) id o ≡ ok d
          → o ≡ some (directory d)
      found id d none h = cc
      found id d (some symlink) h = cc
      found id d (some other) h = cc
      found id d (some (directory c)) h = ap (λ d. some (directory d)) (ok_injective c d h)
      found id d (some (unreadable e)) h = cc

  pub run_dir_of_entry :
      (store : Store) (run_id id : Text) (d : RunDir)
      → canonical_run_id u run_id ≡ ok id
      → find_entry id store.entries ≡ some (directory d)
      → run_dir store run_id ≡ ok (path_in store.root id, d)
  unfolding run_dir found_dir
  run_dir_of_entry store run_id id d e f = rw (e, f) refl

  pub read_state-run_id :
      (store : Store) (run_id : Text) (s : RunState)
      → read_state store run_id ≡ ok s
      → s.run_id ≡ run_id
  unfolding read_state
  read_state-run_id store run_id s h =
      let (x, _, h) = >>=-eq-ok (run_dir store run_id) _ h in
      let (t, _, h) = >>=-eq-ok (read_json (path_in x.0 (codes "state.json")) x.1.state) _ h in
      let (_, _, h) = >>=-eq-ok (validate_persisted_run_state t) _ h in
      let (_, e, h) = >>=-eq-ok (refuse_if (not (text_eq t.run_id run_id)) _) _ h in
      ap (λ (s : RunState). s.run_id) (sym (ok_injective t s h))
      ∙ text_eq→eq t.run_id run_id (not-eq_false (text_eq t.run_id run_id) (refuse_if-ok _ _ e))
