-- ===== src/Cli/Observe.antt =====
-- src/cli.rs: `observe_state_and_activity` and `load_view`. The store is read up to three times,
-- and the supervisor may write between the readings, so each reading has its own store.
use procherd.Prelude.{◌≡◌, ◌∙◌, sym, ap, Bool, true, false, not, ◌&&◌, [], ◌∷◌, if◌then◌else◌}
use procherd.Prelude.Texts.{Text, text, format, text_eq}
use procherd.Error.{Result, ok, ◌>>=◌, ◌>>◌, refuse_if, integrity_error, >>=-eq-ok, ok_injective}
use procherd.Model.Status.{is_live}
use procherd.Model.Run.{RunState}
use procherd.Model.Documents.{RunView, new_view, run_schema_version}
use procherd.Store.RunId.{Ulid}
use procherd.Store.Runs.{Store, read_state, read_state-run_id, supervisor_active}

-- The stores of the first state reading, the lock's observation and the second state reading.
pub record Readings : Type 0 where
  pub before : Store
  pub at_lock : Store
  pub fresh : Store

module _ (u : Ulid) where
  read_checked : Store → Text → Result RunState
  read_checked store run_id = do
    state ← read_state u store run_id
    refuse_if (not (text_eq state.schema_version run_schema_version))
        (integrity_error (format "unsupported run schema {}" (text state.schema_version ∷ [])))
    ok state

  unfoldable pub observe_state_and_activity : Readings → Text → Result (RunState × Bool)
  unfolding read_checked
  observe_state_and_activity r run_id = do
    state ← read_checked r.before run_id
    active ← supervisor_active u r.at_lock run_id
    state' ← if not active && is_live state.status then read_checked r.fresh run_id else ok state
    ok (state', active)

  unfoldable pub load_view : Readings → Text → Result RunView
  load_view r run_id = do
    (state, active) ← observe_state_and_activity r run_id
    ok (new_view state active)

  read_checked-read :
      (store : Store) (run_id : Text) (s : RunState)
      → read_checked store run_id ≡ ok s
      → read_state u store run_id ≡ ok s
  unfolding read_checked
  read_checked-read store run_id s h =
      let (s', e, h) = >>=-eq-ok (read_state u store run_id) _ h in
      let (_, _, h) =
        >>=-eq-ok (refuse_if (not (text_eq s'.schema_version run_schema_version)) _) _ h in
      e ∙ h

  either_read :
      (r : Readings) (run_id : Text) (b : Bool) (s s' : RunState)
      → read_state u r.before run_id ≡ ok s
      → (if b then read_checked r.fresh run_id else ok s) ≡ ok s'
      → s'.run_id ≡ run_id
  either_read r run_id true s s' e h =
      read_state-run_id u r.fresh run_id s' (read_checked-read r.fresh run_id s' h)
  either_read r run_id false s s' e h =
      ap (λ (s : RunState). s.run_id) (sym (ok_injective s s' h))
      ∙ read_state-run_id u r.before run_id s e

  -- A view is of the run that was asked for.
  pub load_view-run_id :
      (r : Readings) (run_id : Text) (v : RunView)
      → load_view r run_id ≡ ok v
      → v.state.run_id ≡ run_id
  unfolding load_view observe_state_and_activity new_view
  load_view-run_id r run_id v h =
      let (p, e, h) = >>=-eq-ok (observe_state_and_activity r run_id) _ h in
      let (s1, e1, f) = >>=-eq-ok (read_checked r.before run_id) _ e in
      let (a, _, f) = >>=-eq-ok (supervisor_active u r.at_lock run_id) _ f in
      let (s2, e3, f) =
        >>=-eq-ok (if not a && is_live s1.status then read_checked r.fresh run_id else ok s1) _ f in
      ap (λ (v : RunView). v.state.run_id) (sym (ok_injective (new_view p.0 p.1) v h))
      ∙ ap (λ q. q.0.run_id) (sym (ok_injective (s2, a) p f))
      ∙ either_read r run_id (not a && is_live s1.status) s1 s2
          (read_checked-read r.before run_id s1 e1) e3
