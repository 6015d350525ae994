-- ===== src/Store/Refinement.antt =====
-- src/store.rs: the operations that change the store, as operations of a map from names to runs.
use mathlib.Core.Path.{subst}
use procherd.Prelude.{
  ℕ, ◌≡◌, refl, sym, ap, ◌∙◌, true, false, not, ltb, inl, inr, Option, none, some, List, [], ◌∷◌,
  ◌++◌,
}
use procherd.Prelude.Texts.{Text, codes, text_eq, text_eq_refl}
use procherd.Error.{WriteError, Result, ok, refuse_if, ◌>>=◌, >>=-eq-ok, ok_injective}
use procherd.Model.Run.{RunState}
use procherd.Model.Documents.{SupervisorSpec, StopRequest}
use procherd.Model.Status.{is_terminal}
use procherd.Store.Files.{
  Node, absent, symlink, irregular, unopenable, regular, read_json, ensure_regular_file,
  document_limit,
}
use procherd.Store.RunId.{Ulid, canonical_run_id}
use procherd.Store.Runs.{
  RunDir, Entry, directory, Store, find_entry, path_in, validate_persisted_run_state, read_state,
  run_dir, run_dir-entry,
}
use procherd.Store.Creation.{create_run, newline, new_dir, make_dir, unless, was_absent}
use procherd.Store.Removal.{remove_terminal_run, remove_terminal_run-terminal}
use procherd.Store.Request.{with_request, write_stop_request, write_stop_request-OnlyRequested}

-- An operation with its arguments, and what it reads of the failures of the file system.
pub data Operation : Type 0 where
  create : (ℕ → Option WriteError) → ℕ → ℕ → RunState → SupervisorSpec → Text → Operation
  ask : Option WriteError → ℕ → StopRequest → Operation
  remove : Option Text → Text → Operation

-- What a run is for the code that uses the store: the documents in its directory. How long they are,
-- the lock and the log are left out.
pub record Run : Type 0 where
  pub state : Option RunState
  pub spec : Option SupervisorSpec
  pub owner_token : Option Text
  pub request : Option StopRequest

pub data AbstractEntry : Type 0 where
  run : Run → AbstractEntry
  foreign : AbstractEntry

abbrev document_in : {A : Type 0} → Node A → Option A
document_in (regular _ (inr a)) = some a
document_in _ = none

abbrev run_in : RunDir → Run
run_in d = record {
  state = document_in d.state;
  spec = document_in d.spec;
  owner_token = document_in d.owner_token;
  request = document_in d.stop_request;
}

abbrev abstract_entry : Entry → AbstractEntry
abstract_entry (directory d) = run (run_in d)
abstract_entry _ = foreign

abbrev abstract_found : Option Entry → Option AbstractEntry
abstract_found none = none
abstract_found (some e) = some (abstract_entry e)

abbrev pub EntryMap : Type 0
EntryMap = Text → Option AbstractEntry

pub entries_of : Store → EntryMap
entries_of store name = abstract_found (find_entry name store.entries)

abbrev pub run_id_of : Operation → Text
run_id_of (create _ _ _ state _ _) = state.run_id
run_id_of (ask _ _ request) = request.run_id
run_id_of (remove _ run_id) = run_id

-- The entry of the run before and after an operation.
abbrev pub Changes : Operation → Option AbstractEntry → Option AbstractEntry → Type 0
Changes (create _ _ _ state spec token) before after =
    (before ≡ none)
    × (after
        ≡ some (
            run (record {
              state = some state;
              spec = some spec;
              owner_token = some (token ++ (newline ∷ []));
              request = none;
            })))
Changes (ask _ _ request) before after =
    (r : Run) × (before ≡ some (run r)) × (after ≡ some (run (record r { request = some request })))
Changes (remove _ _) before after =
    (r : Run) × (s : RunState) × (before ≡ some (run r))
    × (after ≡ none)
    × (r.state ≡ some s)
    × (is_terminal s.status ≡ true)

module _ (u : Ulid) where
  unfoldable pub perform : Operation → Store → Result Store
  perform (create failure state_len spec_len state spec token) store =
      create_run u failure state_len spec_len store state spec token
  perform (ask outcome len request) store = write_stop_request u outcome len store request
  perform (remove outcome run_id) store = remove_terminal_run u outcome store run_id

  unfoldable pub perform_all : List Operation → Store → Result Store
  perform_all [] store = ok store
  perform_all (o ∷ os) store = do store' ← perform o store; perform_all os store'

  -- An operation changes the entry of its run, and no other.
  abbrev pub AbstractStep : Operation → EntryMap → EntryMap → Type 0
  AbstractStep o m m' =
      (id : Text) × (canonical_run_id u (run_id_of o) ≡ ok id)
      × Changes o (m id) (m' id)
      × ((name : Text) → text_eq id name ≡ false → m' name ≡ m name)

  pub data AbstractSteps : List Operation → EntryMap → EntryMap → Type 0 where
    finished : (m : EntryMap) → AbstractSteps [] m m
    next :
        (o : Operation) (os : List Operation) (m m' m'' : EntryMap)
        → AbstractStep o m m'
        → AbstractSteps os m' m''
        → AbstractSteps (o ∷ os) m m''

  found :
      (run_id : Text) (s : Store) (x : Text × RunDir) (id : Text)
      → canonical_run_id u run_id ≡ ok id
      → run_dir u s run_id ≡ ok x
      → find_entry id s.entries ≡ some (directory x.1)
  found run_id s x id e r =
      let (id', e', f, _) = run_dir-entry u s run_id x r in
      subst (λ i. find_entry i s.entries ≡ some (directory x.1)) (ok_injective id' id (sym e' ∙ e))
        f

  document_of :
      (path : Text) (node : Node RunState) (s : RunState)
      → read_json path node ≡ ok s
      → (n : ℕ) × (node ≡ regular n (inr s))
  unfolding read_json ensure_regular_file
  document_of path (absent e) s h = cc
  document_of path symlink s h = cc
  document_of path irregular s h = cc
  document_of path (unopenable e) s h = cc
  document_of path (regular n (inl e)) s h =
      let (_, _, h) = >>=-eq-ok (refuse_if (ltb document_limit n) _) _ h in cc
  document_of path (regular n (inr t)) s h =
      let (_, _, h) = >>=-eq-ok (refuse_if (ltb document_limit n) _) _ h in
      (n, ap (λ t. regular n (inr t)) (ok_injective t s h))

  read_of :
      (store : Store) (run_id : Text) (s : RunState)
      → read_state u store run_id ≡ ok s
      → (x : Text × RunDir) × (run_dir u store run_id ≡ ok x)
        × ((n : ℕ) × (x.1.state ≡ regular n (inr s)))
  unfolding read_state
  read_of store run_id s h =
      let (x, r, h) = >>=-eq-ok (run_dir u store run_id) _ h in
      let (t, j, h) = >>=-eq-ok (read_json (path_in x.0 (codes "state.json")) x.1.state) _ h in
      let (_, _, h) = >>=-eq-ok (validate_persisted_run_state u t) _ h in
      let (_, _, h) = >>=-eq-ok (refuse_if (not (text_eq t.run_id run_id)) _) _ h in
      let (n, d) = document_of _ x.1.state t j in
      (x, r, (n, d ∙ ap (λ t. regular n (inr t)) (ok_injective t s h)))

  perform-AbstractStep :
      (o : Operation) (store store' : Store)
      → perform o store ≡ ok store'
      → AbstractStep o (entries_of store) (entries_of store')
  unfolding perform create_run find_entry new_dir entries_of
  perform-AbstractStep (create failure state_len spec_len state spec token) store store' h =
      let (id, e, h) = >>=-eq-ok (canonical_run_id u state.run_id) _ h in
      let (_, m, h) = >>=-eq-ok (make_dir (find_entry id store.entries) (failure 0)) _ h in
      let (_, _, h) = >>=-eq-ok (unless (failure 1)) _ h in
      let (_, _, h) = >>=-eq-ok (unless (failure 2)) _ h in
      let (_, _, h) = >>=-eq-ok (unless (failure 3)) _ h in
      let (_, _, h) = >>=-eq-ok (unless (failure 4)) _ h in
      let o = create failure state_len spec_len state spec token in
      subst (λ s. AbstractStep o (entries_of store) (entries_of s)) (ok_injective _ store' h)
        (
          id,
          e,
          (
            ap abstract_found (was_absent u (find_entry id store.entries) (failure 0) m),
            rw (text_eq_refl id) refl,
          ),
          λ name n. rw n refl,
        )
  perform-AbstractStep (ask outcome len request) store store' h =
      let (path, d, r, r', _, _, (id, e, others)) =
        write_stop_request-OnlyRequested u outcome len store store' request h in
      (
        id,
        e,
        (
          run_in d,
          ap abstract_found (found request.run_id store (path, d) id e r),
          ap abstract_found
              (found request.run_id store' (path, with_request len request d) id e r'),
        ),
        λ name n. ap abstract_found (others name n),
      )
  perform-AbstractStep (remove outcome run_id) store store' h =
      let (id, state, e, _, r, t, gone, others) =
        remove_terminal_run-terminal u outcome store store' run_id h in
      let (x, f, (n, d)) = read_of store run_id state r in
      (
        id,
        e,
        (
          run_in x.1,
          state,
          ap abstract_found (found run_id store x id e f),
          ap abstract_found gone,
          ap document_in d,
          t,
        ),
        λ name n. ap abstract_found (others name n),
      )

  -- Operations that are performed one after the other do to the map from names to runs what they are
  -- specified to do. A creation, of a run that has no entry, adds a run with just the state, the
  -- specification and the token (with a newline) that it was given; a stop request sets the request of
  -- its run, and nothing else of it; a removal takes away its run, whose state is terminal; and none
  -- of them changes another entry.
  pub perform_all-AbstractSteps :
      (os : List Operation) (store store' : Store)
      → perform_all os store ≡ ok store'
      → AbstractSteps os (entries_of store) (entries_of store')
  unfolding perform_all
  perform_all-AbstractSteps [] store store' h =
      subst (λ s. AbstractSteps [] (entries_of store) (entries_of s)) (ok_injective store store' h)
        (finished (entries_of store))
  perform_all-AbstractSteps (o ∷ os) store store' h =
      let (s, e, h) = >>=-eq-ok (perform o store) _ h in
      next o os (entries_of store) (entries_of s) (entries_of store')
        (perform-AbstractStep o store s e) (perform_all-AbstractSteps os s store' h)
