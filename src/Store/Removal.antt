-- ===== src/Store/Removal.antt =====
-- src/store.rs: `remove_terminal_run`. The outcome of `remove_dir_all` is an argument; when it
-- succeeds, the run's directory is no longer an entry of the state root.
use mathlib.Core.Path.{subst}
use procherd.Prelude.{
  not-eq_false, ◌≡◌, refl, ap, ◌∙◌, true, false, not, Option, none, some, List, [], ◌∷◌, Bool-cases,
  inl, inr, if◌then◌else◌,
}
use procherd.Prelude.Texts.{Text, text, format, text_eq, text_eq→eq}
use procherd.Error.{
  Result, ok, err, ◌>>=◌, ◌>>◌, refuse_if, operational, gc_live_run, from_io, >>=-eq-ok,
  ok_injective, refuse_if-ok,
}
use procherd.Model.Status.{is_terminal}
use procherd.Model.Run.{RunState}
use procherd.Store.RunId.{Ulid, canonical_run_id}
use procherd.Store.Runs.{Entry, Store, find_entry, run_dir, read_state, supervisor_active}

unfoldable pub remove_entry : Text → List (Text × Entry) → List (Text × Entry)
remove_entry name [] = []
remove_entry name ((n, e) ∷ es) =
    let rest = remove_entry name es in if text_eq n name then rest else (n, e) ∷ rest

remove_dir_all : Option Text → Text → Store → Result Store
remove_dir_all (some e) name store = err (from_io e)
remove_dir_all none name store = ok (record store { entries = remove_entry name store.entries })

module _ (u : Ulid) where
  unfoldable pub remove_terminal_run : Option Text → Store → Text → Result Store
  unfolding remove_dir_all
  remove_terminal_run outcome store run_id = do
    id ← canonical_run_id u run_id
    (path, dir) ← run_dir u store run_id
    active ← supervisor_active u store run_id
    refuse_if active
        (operational gc_live_run (format "refusing to remove active run {}" (text run_id ∷ [])))
    state ← read_state u store run_id
    refuse_if (not (is_terminal state.status)) (
        operational gc_live_run
          (format "refusing to remove non-terminal run {}" (text run_id ∷ [])))
    remove_dir_all outcome id store

  remove_entry-other :
      (name other : Text) (es : List (Text × Entry))
      → text_eq name other ≡ false
      → find_entry other (remove_entry name es) ≡ find_entry other es
  unfolding remove_entry find_entry
  remove_entry-other name other [] h = refl
  remove_entry-other name other ((n, e) ∷ es) h = elim (Bool-cases (text_eq n name)) [
    | inl p ↦ rw (p, text_eq→eq n name p, h) (remove_entry-other name other es h)
    | inr p ↦ elim (Bool-cases (text_eq n other)) [
      | inl q ↦ rw (p, q) refl
      | inr q ↦ rw (p, q) (remove_entry-other name other es h)
    ]
  ]

  remove_entry-gone :
      (name : Text) (es : List (Text × Entry)) → find_entry name (remove_entry name es) ≡ none
  unfolding remove_entry find_entry
  remove_entry-gone name [] = refl
  remove_entry-gone name ((n, e) ∷ es) = elim (Bool-cases (text_eq n name)) [
    | inl p ↦ rw p (remove_entry-gone name es)
    | inr p ↦ rw (p, p) (remove_entry-gone name es)
  ]

  removed :
      (outcome : Option Text) (name : Text) (store store' : Store)
      → remove_dir_all outcome name store ≡ ok store'
      → remove_entry name store.entries ≡ store'.entries
  unfolding remove_dir_all
  removed none name store store' h =
      ap (λ (s : Store). s.entries)
        (ok_injective (record store { entries = remove_entry name store.entries }) store' h)
  removed (some e) name store store' h = cc

  pub remove_terminal_run-terminal :
      (outcome : Option Text) (store store' : Store) (run_id : Text)
      → remove_terminal_run outcome store run_id ≡ ok store'
      → (id : Text) × (state : RunState) × (canonical_run_id u run_id ≡ ok id)
        × (supervisor_active u store run_id ≡ ok false)
        × (read_state u store run_id ≡ ok state)
        × (is_terminal state.status ≡ true)
        × (find_entry id store'.entries ≡ none)
        × ((other : Text)
            → text_eq id other ≡ false
            → find_entry other store'.entries ≡ find_entry other store.entries)
  unfolding remove_terminal_run
  remove_terminal_run-terminal outcome store store' run_id h =
      let (id, e0, h) = >>=-eq-ok (canonical_run_id u run_id) _ h in
      let (d, e1, h) = >>=-eq-ok (run_dir u store run_id) _ h in
      let (active, e2, h) = >>=-eq-ok (supervisor_active u store run_id) _ h in
      let (_, e3, h) = >>=-eq-ok (refuse_if active _) _ h in
      let (state, e4, h) = >>=-eq-ok (read_state u store run_id) _ h in
      let (_, e5, h) = >>=-eq-ok (refuse_if (not (is_terminal state.status)) _) _ h in
      let gone = removed outcome id store store' h in
      (
        id,
        state,
        e0,
        e2 ∙ ap ok (refuse_if-ok active _ e3),
        e4,
        not-eq_false (is_terminal state.status)
            (refuse_if-ok (not (is_terminal state.status)) _ e5),
        subst (λ es. find_entry id es ≡ none) gone (remove_entry-gone id store.entries),
        λ other n.
            subst (λ es. find_entry other es ≡ find_entry other store.entries) gone
              (remove_entry-other id other store.entries n),
      )
