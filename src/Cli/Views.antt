-- ===== src/Cli/Views.antt =====
-- src/cli.rs: `list`, `leases`, `status` and `logs` up to their printing, and the names and selections
-- of the states. Each view has its own readings of the store.
use mathlib.Core.Path.{subst}
use procherd.Prelude.{◌≡◌, sym, ap, ◌∙◌, Bool, ℕ, Option, none, some, List, [], ◌∷◌, map, any, ◌&&◌}
use procherd.Prelude.Texts.{Text, codes, text_eq}
use procherd.Prelude.Order.{is_among}
use procherd.Error.{Result, ok, ◌>>=◌, for_each, >>=-eq-ok, ok_injective}
use procherd.Model.Status.{RunStatus, LogStream}
use procherd.Model.Readiness.{ReadinessStatus}
use procherd.Model.Documents.{RunView, ListResult, LeasesResult, StatusResult, LogsResult}
use procherd.Logs.Reader.{Decoder, read_logs}
use procherd.Store.RunId.{Ulid}
use procherd.Store.Runs.{Store, read_state, run_dir}
use procherd.Store.Listing.{list_run_ids, list_run_ids-is_among, is_run, Descending}
use procherd.Cli.Observe.{Readings, load_view, load_view-run_id}

pub data StreamArg : Type 0 where
  all stdout stderr : StreamArg

unfoldable pub selected : StreamArg → Option LogStream
selected StreamArg.all = none
selected StreamArg.stdout = some LogStream.stdout
selected StreamArg.stderr = some LogStream.stderr

unfoldable pub status_name : RunStatus → Text
status_name RunStatus.created = codes "created"
status_name RunStatus.starting = codes "starting"
status_name RunStatus.running = codes "running"
status_name RunStatus.stopping = codes "stopping"
status_name RunStatus.exited = codes "exited"
status_name RunStatus.failed = codes "failed"
status_name RunStatus.stopped = codes "stopped"

unfoldable pub readiness_name : ReadinessStatus → Text
readiness_name ReadinessStatus.not_configured = codes "not-configured"
readiness_name ReadinessStatus.pending = codes "pending"
readiness_name ReadinessStatus.ready = codes "ready"
readiness_name ReadinessStatus.timed_out = codes "timed-out"
readiness_name ReadinessStatus.failed = codes "failed"

module _ (u : Ulid) where
  unfoldable pub status : Readings → Text → Result StatusResult
  status readings run_id = do
    view ← load_view u readings run_id
    ok (record { schema_version = codes "procherd.status.v1"; run = view })

  unfoldable pub leases : Readings → Text → Result LeasesResult
  leases readings run_id = do
    view ← load_view u readings run_id
    ok (record {
      schema_version = codes "procherd.leases.v1";
      run_id = run_id;
      supervisor_active = view.supervisor_active;
      leases = view.state.leases;
    })

  -- The state and the log file are read from the store one after the other.
  unfoldable pub logs :
      Decoder → Store → Store → Text → ℕ → ℕ → Option LogStream → Result LogsResult
  logs decode before after run_id cursor limit stream = do
    state ← read_state u before run_id
    (path, d) ← run_dir u after run_id
    read_logs decode state cursor limit stream d.logs

  -- `readings` gives the readings of each run's view.
  unfoldable pub list : (Text → Bool) → Option Text → Store → (Text → Readings) → Result ListResult
  list is_utf8 failure store readings = do
    ids ← list_run_ids u is_utf8 failure store
    runs ← for_each (λ run_id. load_view u (readings run_id) run_id) ids
    ok (record { schema_version = codes "procherd.list.v1"; runs = runs })

  views-run_id :
      (readings : Text → Readings) (ids : List Text) (runs : List RunView)
      → for_each (λ run_id. load_view u (readings run_id) run_id) ids ≡ ok runs
      → ids ≡ map (λ (v : RunView). v.state.run_id) runs
  unfolding for_each
  views-run_id readings [] runs h =
      ap (map (λ (v : RunView). v.state.run_id)) (ok_injective [] runs h)
  views-run_id readings (id ∷ ids) runs h =
      let (v, e, h) = >>=-eq-ok (load_view u (readings id) id) _ h in
      let (rest, f, h) = >>=-eq-ok (for_each _ ids) _ h in
      ap (λ i. i ∷ ids) (sym (load_view-run_id u (readings id) id v e))
      ∙ ap (λ r. v.state.run_id ∷ r) (views-run_id readings ids rest f)
      ∙ ap (map (λ (v : RunView). v.state.run_id)) (ok_injective (v ∷ rest) runs h)

  abbrev pub run_ids : ListResult → List Text
  run_ids r = map (λ (v : RunView). v.state.run_id) r.runs

  -- The runs of a listing that succeeds have, in descending order, just the identifiers that are the
  -- names of directories in the state root.
  pub list-run_ids :
      (is_utf8 : Text → Bool) (failure : Option Text) (store : Store) (readings : Text → Readings)
      (r : ListResult)
      → list is_utf8 failure store readings ≡ ok r
      → Descending u is_utf8 (run_ids r)
        × ((z : Text)
            → is_among z (run_ids r) ≡ any (λ e. is_run u is_utf8 e && text_eq z e.0) store.entries)
  unfolding list
  list-run_ids is_utf8 failure store readings r h =
      let (ids, e, h) = >>=-eq-ok (list_run_ids u is_utf8 failure store) _ h in
      let (runs, f, h) = >>=-eq-ok (for_each _ ids) _ h in
      subst
        (λ ids.
          Descending u is_utf8 ids
          × ((z : Text)
              → is_among z ids ≡ any (λ e. is_run u is_utf8 e && text_eq z e.0) store.entries))
        (views-run_id readings ids runs f
          ∙ ap run_ids (
              ok_injective (record { schema_version = codes "procherd.list.v1"; runs = runs }) r h))
        (list_run_ids-is_among u is_utf8 failure store ids e)
