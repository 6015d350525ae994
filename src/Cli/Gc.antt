-- ===== src/Cli/Gc.antt =====
-- src/cli.rs: `gc`. The views and the outcomes of the removals are arguments; the store's own test
-- of a removal is in Store/Removal.antt.
use mathlib.Core.Path.{subst}
use procherd.Prelude.{
  ℕ, String, ◌-◌, ◌≤◌, ◌≡◌, refl, ap, Bool, true, false, not, ◌&&◌, List, [], ◌∷◌, arith, ltb,
  if◌then◌else◌,
}
use procherd.Prelude.Texts.{Text, codes}
use procherd.Error.{Result, ok, ◌>>=◌, ◌>>◌, >>=-eq-ok, ok_injective}
use procherd.Model.Status.{is_terminal}
use procherd.Model.Documents.{RunView, GcEntry, GcResult}

-- What the code compares and prints of a run.
unfoldable pub eligibility : ℕ → ℕ → RunView → Bool × String
eligibility older_than_ms age_ms view =
    if view.supervisor_active
    then (false, "supervisor_active")
    else if not (is_terminal view.state.status)
    then (false, "non_terminal_or_orphaned")
    else if ltb age_ms older_than_ms
    then (false, "younger_than_threshold")
    else (true, "terminal_and_inactive")

new_entry : ℕ → ℕ → Text → RunView → GcEntry
unfolding eligibility
new_entry older_than_ms observed_at_ms run_id view =
    let age_ms = observed_at_ms - view.state.updated_at_ms in
    let (eligible, reason) = eligibility older_than_ms age_ms view in
    record {
      run_id = run_id;
      status = view.state.status;
      age_ms = age_ms;
      eligible = eligible;
      reason = reason;
      deleted = false;
    }

-- An iteration's readings: the run, its view, and the result of `remove_terminal_run`.
pub record Candidate : Type 0 where
  pub run_id : Text
  pub view : Result RunView
  pub removal : Result (Unit {0})

removed_entry : Bool → Result (Unit {0}) → GcEntry → Result GcEntry
removed_entry false removal entry = ok entry
removed_entry true removal entry = do removal; ok (record entry { deleted = true })

unfoldable pub gc_entry : ℕ → Bool → ℕ → Candidate → Result GcEntry
unfolding new_entry removed_entry
gc_entry older_than_ms execute observed_at_ms c = do
  view ← c.view
  let entry = new_entry older_than_ms observed_at_ms c.run_id view
  removed_entry (execute && entry.eligible) c.removal entry

gc_entries : ℕ → Bool → ℕ → List Candidate → Result (List GcEntry)
gc_entries older_than_ms execute observed_at_ms [] = ok []
gc_entries older_than_ms execute observed_at_ms (c ∷ cs) = do
  entry ← gc_entry older_than_ms execute observed_at_ms c
  rest ← gc_entries older_than_ms execute observed_at_ms cs
  ok (entry ∷ rest)

unfoldable pub gc : ℕ → Bool → ℕ → Result (List Candidate) → Result GcResult
unfolding gc_entries
gc older_than_ms execute observed_at_ms listed = do
  candidates ← listed
  entries ← gc_entries older_than_ms execute observed_at_ms candidates
  ok (record {
    schema_version = codes "procherd.gc.v1";
    execute = execute;
    older_than_ms = older_than_ms;
    entries = entries;
  })

-- What an entry says of its candidate.
abbrev pub Explains : ℕ → Bool → ℕ → Candidate → GcEntry → Type 0
Explains older_than_ms execute observed_at_ms c entry =
    (view : RunView) × (c.view ≡ ok view)
    × (entry.run_id ≡ c.run_id)
    × (entry.deleted ≡ (execute && entry.eligible))
    × (entry.eligible ≡ true
        → (view.supervisor_active ≡ false)
          × (is_terminal view.state.status ≡ true)
          × (older_than_ms ≤ observed_at_ms - view.state.updated_at_ms))
    × (entry.deleted ≡ true → c.removal ≡ ok tt)

-- The entries explain the candidates, in the same order.
pub data AllExplain (older_than_ms : ℕ) (execute : Bool) (observed_at_ms : ℕ)
    : List Candidate → List GcEntry → Type 0 where
  none_left : AllExplain older_than_ms execute observed_at_ms [] []
  next :
      {c : Candidate} {cs : List Candidate} {entry : GcEntry} {entries : List GcEntry}
      → Explains older_than_ms execute observed_at_ms c entry
      → AllExplain older_than_ms execute observed_at_ms cs entries
      → AllExplain older_than_ms execute observed_at_ms (c ∷ cs) (entry ∷ entries)

eligibility_lem :
    (older_than_ms age_ms : ℕ) (view : RunView)
    → (eligibility older_than_ms age_ms view).0 ≡ true
    → (view.supervisor_active ≡ false)
      × (is_terminal view.state.status ≡ true)
      × (older_than_ms ≤ age_ms)
unfolding eligibility
eligibility_lem older_than_ms age_ms view h = (ground arith, ground arith, ground arith)

abbrev with_deleted : Bool → GcEntry → GcEntry
with_deleted b entry = record entry { deleted = b }

removed_entry_lem :
    (b : Bool) (removal : Result (Unit {0})) (entry entry' : GcEntry)
    → removed_entry b removal (with_deleted false entry) ≡ ok entry'
    → (with_deleted b entry ≡ entry') × (b ≡ true → removal ≡ ok tt)
unfolding removed_entry
removed_entry_lem false removal entry entry' h =
    (ok_injective (with_deleted false entry) entry' h, λ e. cc)
removed_entry_lem true removal entry entry' h =
    let (_, e, h) = >>=-eq-ok removal _ h in
    (ok_injective (with_deleted true entry) entry' h, λ _. e)

gc_entry-Explains :
    (older_than_ms : ℕ) (execute : Bool) (observed_at_ms : ℕ) (c : Candidate) (entry : GcEntry)
    → gc_entry older_than_ms execute observed_at_ms c ≡ ok entry
    → Explains older_than_ms execute observed_at_ms c entry
unfolding gc_entry new_entry
gc_entry-Explains older_than_ms execute observed_at_ms c entry h =
    let (view, e, h) = >>=-eq-ok c.view _ h in
    let first = new_entry older_than_ms observed_at_ms c.run_id view in
    let (same, removal) = removed_entry_lem (execute && first.eligible) c.removal first entry h in
    subst (Explains older_than_ms execute observed_at_ms c) same
      (view, e, refl, refl, eligibility_lem older_than_ms _ view, removal)

gc_entries-AllExplain :
    (older_than_ms : ℕ) (execute : Bool) (observed_at_ms : ℕ) (cs : List Candidate)
    (entries : List GcEntry)
    → gc_entries older_than_ms execute observed_at_ms cs ≡ ok entries
    → AllExplain older_than_ms execute observed_at_ms cs entries
unfolding gc_entries
gc_entries-AllExplain older_than_ms execute observed_at_ms [] entries h =
    subst (AllExplain older_than_ms execute observed_at_ms []) (ok_injective [] entries h) none_left
gc_entries-AllExplain older_than_ms execute observed_at_ms (c ∷ cs) entries h =
    let (entry, e, h) = >>=-eq-ok (gc_entry older_than_ms execute observed_at_ms c) _ h in
    let (rest, f, h) = >>=-eq-ok (gc_entries older_than_ms execute observed_at_ms cs) _ h in
    subst (AllExplain older_than_ms execute observed_at_ms (c ∷ cs))
      (ok_injective (entry ∷ rest) entries h)
      (next (gc_entry-Explains older_than_ms execute observed_at_ms c entry e)
        (gc_entries-AllExplain older_than_ms execute observed_at_ms cs rest f))

-- The result of a collection that succeeds has one entry for each run of its listing, in order. An entry is eligible
-- only if the run's supervisor is not active, its status is terminal and its age reaches the
-- threshold; it is deleted exactly if the collection executes and it is eligible, and then the
-- store's removal succeeded.
pub gc-AllExplain :
    (older_than_ms : ℕ) (execute : Bool) (observed_at_ms : ℕ) (listed : Result (List Candidate))
    (r : GcResult)
    → gc older_than_ms execute observed_at_ms listed ≡ ok r
    → (cs : List Candidate) × (listed ≡ ok cs)
      × AllExplain older_than_ms execute observed_at_ms cs r.entries
unfolding gc
gc-AllExplain older_than_ms execute observed_at_ms listed r h =
    let (cs, l, h) = >>=-eq-ok listed _ h in
    let (entries, e, h) = >>=-eq-ok (gc_entries older_than_ms execute observed_at_ms cs) _ h in
    (
      cs,
      l,
      subst (AllExplain older_than_ms execute observed_at_ms cs)
          (ap (λ (r : GcResult). r.entries) (ok_injective _ r h))
          (gc_entries-AllExplain older_than_ms execute observed_at_ms cs entries e),
    )
