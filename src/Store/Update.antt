-- ===== src/Store/Update.antt =====
-- src/store.rs: the replacement of a file in the directory of a run.
use procherd.Prelude.{
  ℕ, ◌≤◌, ◌≡◌, refl, ap, false, Option, none, some, List, [], ◌∷◌, if◌then◌else◌, Bool-cases, inl,
  inr, ltb, arith,
}
use procherd.Prelude.Texts.{Text, text_eq, text_eq→eq, text_eq_refl}
use procherd.Error.{Result, ok, err, >>=-eq-ok}
use procherd.Model.Run.{RunState}
use procherd.Store.Files.{atomic_write_json, document_limit, read_json}
use procherd.Store.RunId.{Ulid, canonical_run_id}
use procherd.Store.Runs.{
  RunDir, Entry, directory, Store, find_entry, run_dir, run_dir-entry, run_dir_of_entry, read_state,
  supervisor_active, validate_persisted_run_state,
}

-- A file in the directory of that name is replaced.
in_dir : (RunDir → RunDir) → Entry → Entry
in_dir f (directory d) = directory (f d)
in_dir f e = e

unfoldable pub update_entry : (RunDir → RunDir) → Text → List (Text × Entry) → List (Text × Entry)
unfolding in_dir
update_entry f name [] = []
update_entry f name ((n, e) ∷ es) =
    let rest = update_entry f name es in
    if text_eq n name then (n, in_dir f e) ∷ es else (n, e) ∷ rest

entry_or : Entry → Option Entry → Entry
entry_or e none = e
entry_or e (some x) = x

pub update_entry-found :
    (f : RunDir → RunDir) (name : Text) (d : RunDir) (es : List (Text × Entry))
    → find_entry name es ≡ some (directory d)
    → find_entry name (update_entry f name es) ≡ some (directory (f d))
unfolding update_entry find_entry in_dir entry_or
update_entry-found f name d [] h = cc
update_entry-found f name d ((n, e) ∷ es) h = elim (Bool-cases (text_eq n name)) [
  | inl q ↦ rw (q, q) (ap (λ o. some (in_dir f (entry_or e o))) (rw q at h))
  | inr q ↦ rw (q, q) (update_entry-found f name d es (rw q at h))
]

pub update_entry-other :
    (f : RunDir → RunDir) (name other : Text) (es : List (Text × Entry))
    → text_eq name other ≡ false
    → find_entry other (update_entry f name es) ≡ find_entry other es
unfolding update_entry find_entry
update_entry-other f name other [] h = refl
update_entry-other f name other ((n, e) ∷ es) h = elim (Bool-cases (text_eq n name)) [
  | inl q ↦ rw (q, text_eq→eq n name q, h) refl
  | inr q ↦ elim (Bool-cases (text_eq n other)) [
    | inl r ↦ rw (q, r) refl
    | inr r ↦ rw (q, r) (update_entry-other f name other es h)
  ]
]

abbrev pub with_state : ℕ → RunState → RunDir → RunDir
with_state len s d = record d { state = atomic_write_json len s }

module _ (u : Ulid) where
  in_run : (RunDir → RunDir) → Store → Result Text → Store
  in_run f store (err _) = store
  in_run f store (ok id) = record store { entries = update_entry f id store.entries }

  -- `atomic_write_json` of the state document of a run; `outcome` is the error of the write.
  unfoldable pub replace_state : Option Text → ℕ → RunState → Store → Store
  unfolding in_run
  replace_state (some e) len s store = store
  replace_state none len s store = in_run (with_state len s) store (canonical_run_id u s.run_id)

  -- What is read of the run after its state document is replaced.
  pub replace_state-read_state :
      (len : ℕ) (s old : RunState) (store : Store)
      → read_state u store s.run_id ≡ ok old
      → validate_persisted_run_state u s ≡ ok tt
      → len ≤ document_limit
      → (read_state u (replace_state none len s store) s.run_id ≡ ok s)
        × (supervisor_active u (replace_state none len s store) s.run_id
            ≡ supervisor_active u store s.run_id)
  unfolding replace_state read_state read_json supervisor_active
  replace_state-read_state len s old store h v fits =
      let (x, r, _) = >>=-eq-ok (run_dir u store s.run_id) _ h in
      let (id, c, f, p) = run_dir-entry u store s.run_id x r in
      let f' = update_entry-found (with_state len s) id x.1 store.entries f in
      let r' =
        run_dir_of_entry u
          (record store { entries = update_entry (with_state len s) id store.entries }) s.run_id id
          (with_state len s x.1) c f' in
      let small : ltb document_limit len ≡ false = ground arith in
      (rw (c, r', small, v, text_eq_refl s.run_id) refl, rw (c, r', r, ← p) refl)
