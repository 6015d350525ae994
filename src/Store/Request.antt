-- ===== src/Store/Request.antt =====
-- src/store.rs: `write_stop_request`.
use mathlib.Core.Path.{subst}
use procherd.Prelude.{ℕ, ◌≡◌, refl, sym, ap, ◌∙◌, false, Option, none, some}
use procherd.Prelude.Texts.{Text, text_eq}
use procherd.Error.{Result, ok, err, ◌>>=◌, ◌>>◌, WriteError, from_write, >>=-eq-ok, ok_injective}
use procherd.Model.Documents.{StopRequest}
use procherd.Store.Files.{atomic_write_json}
use procherd.Store.Update.{update_entry, update_entry-found, update_entry-other}
use procherd.Store.RunId.{Ulid, canonical_run_id}
use procherd.Store.Runs.{
  RunDir, path_in, run_dir-entry, run_dir_of_entry, directory, Store, find_entry, run_dir,
  read_state, supervisor_active,
}

abbrev pub with_request : ℕ → StopRequest → RunDir → RunDir
with_request len request d = record d { stop_request = atomic_write_json len request }

unless : Option WriteError → Result (Unit {0})
unless none = ok tt
unless (some e) = err (from_write e)

module _ (u : Ulid) where
  -- `outcome` is the error of the write, and `len` the length of the document.
  unfoldable pub write_stop_request : Option WriteError → ℕ → Store → StopRequest → Result Store
  unfolding update_entry unless
  write_stop_request outcome len store request = do
    id ← canonical_run_id u request.run_id
    _ ← run_dir u store request.run_id
    unless outcome
    ok (record store { entries = update_entry (with_request len request) id store.entries })

  read_again :
      (len : ℕ) (request : StopRequest) (store s : Store) (x : Text × RunDir)
      → run_dir u store request.run_id ≡ ok x
      → run_dir u s request.run_id ≡ ok (x.0, with_request len request x.1)
      → read_state u s request.run_id ≡ read_state u store request.run_id
  unfolding read_state
  read_again len request store s x r r' = rw (r, r') refl

  active_again :
      (len : ℕ) (request : StopRequest) (store s : Store) (x : Text × RunDir)
      → run_dir u store request.run_id ≡ ok x
      → run_dir u s request.run_id ≡ ok (x.0, with_request len request x.1)
      → supervisor_active u s request.run_id ≡ supervisor_active u store request.run_id
  unfolding supervisor_active
  active_again len request store s x r r' = rw (r, r') refl

  -- What a stop request changes of a store.
  abbrev pub OnlyRequested : ℕ → StopRequest → Store → Store → Type 0
  OnlyRequested len request store store' =
      (path : Text) × (d : RunDir) × (run_dir u store request.run_id ≡ ok (path, d))
      × (run_dir u store' request.run_id ≡ ok (path, with_request len request d))
      × (read_state u store' request.run_id ≡ read_state u store request.run_id)
      × (supervisor_active u store' request.run_id ≡ supervisor_active u store request.run_id)
      × ((id : Text) × (canonical_run_id u request.run_id ≡ ok id)
          × ((name : Text)
              → text_eq id name ≡ false
              → find_entry name store'.entries ≡ find_entry name store.entries))

  pub write_stop_request-OnlyRequested :
      (outcome : Option WriteError) (len : ℕ) (store store' : Store) (request : StopRequest)
      → write_stop_request outcome len store request ≡ ok store'
      → OnlyRequested len request store store'
  unfolding write_stop_request
  write_stop_request-OnlyRequested outcome len store store' request h =
      let (id, e, h) = >>=-eq-ok (canonical_run_id u request.run_id) _ h in
      let (x, r, h) = >>=-eq-ok (run_dir u store request.run_id) _ h in
      let (_, _, h) = >>=-eq-ok (unless outcome) _ h in
      let (id', e', f, p) = run_dir-entry u store request.run_id x r in
      let same_id : id' ≡ id = ok_injective id' id (sym e' ∙ e) in
      let f' =
        update_entry-found (with_request len request) id x.1 store.entries
          (subst (λ i. find_entry i store.entries ≡ some (directory x.1)) same_id f) in
      let s = record store { entries = update_entry (with_request len request) id store.entries } in
      let r' = run_dir_of_entry u s request.run_id id (with_request len request x.1) e f' in
      let p' : path_in store.root id ≡ x.0 = ap (path_in store.root) (sym same_id) ∙ p in
      let r'' = r' ∙ ap (λ q. ok (q, with_request len request x.1)) p' in
      subst (OnlyRequested len request store) (ok_injective s store' h) (
        x.0,
        x.1,
        r,
        r'',
        read_again len request store s x r r'',
        active_again len request store s x r r'',
        (id, e, λ name n. update_entry-other (with_request len request) id name store.entries n),
      )
