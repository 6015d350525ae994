-- ===== src/Cli/Start/Accepted.antt =====
-- src/cli.rs: what `start` writes is what the store and the supervisor accept. Proofs.
use mathlib.Core.Path.{subst}
use procherd.Prelude.{
  ℕ, ◌≤◌, ◌<◌, ◌≡◌, refl, sym, ap, true, false, ◌==◌, Option, none, some, List, [], ◌∷◌, ◌++◌, inr,
  map, length, is_empty, ltb, arith, ==_iff,
}
use procherd.Prelude.Texts.{Text, codes, text_eq, text_eq_refl}
use procherd.Error.{ok, >>=-eq-ok, ok_injective}
use procherd.Model.Status.{RunStatus}
use procherd.Model.Equality.{readiness_eq_refl, list_eq_refl, option_num_eq_refl}
use procherd.Model.Readiness.{new_readiness}
use procherd.Model.Run.{RunState, PortLease, TempDirectoryLease, requested}
use procherd.Model.Documents.{SupervisorSpec}
use procherd.Logs.Writer.{Sha256}
use procherd.Readiness.Conditions.{Net}
use procherd.Store.Files.{regular, read_json, ensure_regular_file, document_limit}
use procherd.Store.RunId.{Ulid, run_prefix, canonical_run_id}
use procherd.Store.Runs.{validate_persisted_run_state}
use procherd.Supervisor.Body.{continue}
use procherd.Supervisor.Startup.{BootEnv, spec_matches, read_documents}
use procherd.Cli.Start.{
  StartCommand, PlanEnv, Plan, Checked, owner_token_of, to_u64, to_u64_option, check_options,
  new_command, new_state, new_spec, plan,
}
use procherd.Cli.Start.Checks.{IsChecked, check_options-IsChecked}

module _ (n : Net) (u : Ulid) (sha : Sha256) where
  matches-new :
      (env : PlanEnv u) (c : Checked) (token : Text)
      → spec_matches (new_spec n u sha env c token) (new_state n u sha env c) ≡ true
  unfolding spec_matches new_spec new_state new_command text_eq
  matches-new env c token =
      let x = new_spec n u sha env c token in
      let r : (to_u64 c.runtime_grace == to_u64 c.runtime_grace) ≡ true = (==_iff _ _).1 refl in
      rw
        (
          text_eq_refl (run_prefix ++ u.print env.ulid),
          text_eq_refl c.program,
          list_eq_refl text_eq text_eq_refl c.args,
          readiness_eq_refl x.readiness,
          option_num_eq_refl x.max_runtime_ms,
          r,
        )
        refl

  names-requested :
      (ps ts : List Text)
      → (map (λ (l : PortLease). l.name) (requested ps ts).ports ≡ ps)
        × (map (λ (l : TempDirectoryLease). l.name) (requested ps ts).temp_directories ≡ ts)
  unfolding requested
  names-requested ps ts = (ports ps, temps ts)
    where
      ports : (ps : List Text) → map (λ (l : PortLease). l.name) (requested ps ts).ports ≡ ps
      ports [] = refl
      ports (p ∷ ps) = ap (λ l. p ∷ l) (ports ps)

      temps :
          (ts : List Text)
          → map (λ (l : TempDirectoryLease). l.name) (requested ps ts).temp_directories ≡ ts
      temps [] = refl
      temps (t ∷ ts) = ap (λ l. t ∷ l) (temps ts)

  own_run_id :
      (i : u.Ident)
      → u.parse (u.print i) ≡ some i
      → length (u.print i) ≡ 26
      → canonical_run_id u (run_prefix ++ u.print i) ≡ ok (run_prefix ++ u.print i)
  unfolding canonical_run_id
  own_run_id i p l =
      let e : (length (u.print i) == 26) ≡ true = (==_iff _ _).1 l in
      rw (p, e, text_eq_refl (run_prefix ++ u.print i)) refl

  to_u64_small : (n : ℕ) → n ≤ 2592000000 → to_u64 n ≡ n
  to_u64_small n h = ground arith

  -- The parts of a plan.
  plan-parts :
      (env : PlanEnv u) (o : StartCommand) (p : Plan)
      → plan n u sha env o ≡ ok p
      → (c : Checked) × (token : Text) × (check_options n u sha env o ≡ ok c)
        × (owner_token_of env.random ≡ ok token)
        × ◌≡◌ {A = Plan}
            (record {
              state = new_state n u sha env c;
              spec = new_spec n u sha env c token;
              owner_token = token;
              startup_timeout = c.startup_timeout;
            })
            p
  unfolding plan
  plan-parts env o p h =
      let (c, e, h) = >>=-eq-ok (check_options n u sha env o) _ h in
      let (token, f, h) = >>=-eq-ok (owner_token_of env.random) _ h in
      (c, token, e, f, ok_injective _ p h)

  new_state-valid :
      (env : PlanEnv u) (c : Checked)
      → u.parse (u.print env.ulid) ≡ some env.ulid
      → length (u.print env.ulid) ≡ 26
      → IsChecked n u sha c
      → validate_persisted_run_state u (new_state n u sha env c) ≡ ok tt
  unfolding validate_persisted_run_state new_state text_eq
  new_state-valid env c q l (_, _, _, _, _, _, v) =
      let r = c.lease_requests in
      let (ports, temps) = names-requested r.port_names r.temp_directory_names in
      rw (own_run_id env.ulid q l, ports, temps, v) refl

  fits : (len : ℕ) → len ≤ document_limit → ltb document_limit len ≡ false
  fits len h = ground arith

  read_documents-matching :
      (boot : BootEnv) (spec : SupervisorSpec) (s : RunState) (spec_len state_len : ℕ)
      → spec.schema_version ≡ codes "procherd.supervisor-spec.v1"
      → spec_matches spec s ≡ true
      → boot.removal ≡ none
      → spec_len ≤ document_limit
      → state_len ≤ document_limit
      → (read_documents boot (record {
        spec_file = regular spec_len (inr spec);
        state_file = regular state_len (inr s);
      })).0
        ≡ ok (spec, s)
  unfolding read_documents read_json ensure_regular_file continue text_eq spec_matches
  read_documents-matching boot spec s spec_len state_len v m r l k =
      rw (fits spec_len l, fits state_len k, v, m, r) refl

  -- A plan that `start` makes for a new identifier whose printed form is 26 bytes long and is read
  -- again as itself: its state is created and passes the store's check of persisted states, and from
  -- the two documents, if they fit the limit and the specification can be removed, the supervisor
  -- reads just this specification and this state.
  pub plan-read_documents :
      (env : PlanEnv u) (o : StartCommand) (p : Plan) (boot : BootEnv) (spec_len state_len : ℕ)
      → u.parse (u.print env.ulid) ≡ some env.ulid
      → length (u.print env.ulid) ≡ 26
      → boot.removal ≡ none
      → spec_len ≤ document_limit
      → state_len ≤ document_limit
      → plan n u sha env o ≡ ok p
      → (p.state.status ≡ RunStatus.created)
        × (validate_persisted_run_state u p.state ≡ ok tt)
        × ((read_documents boot (record {
          spec_file = regular spec_len (inr p.spec);
          state_file = regular state_len (inr p.state);
        })).0
            ≡ ok (p.spec, p.state))
  unfolding new_state new_spec
  plan-read_documents env o p boot spec_len state_len q l r a b h =
      let (c, token, e, _, same) = plan-parts env o p h in
      subst
        (λ (p : Plan).
          (p.state.status ≡ RunStatus.created)
          × (validate_persisted_run_state u p.state ≡ ok tt)
          × ((read_documents boot (record {
            spec_file = regular spec_len (inr p.spec);
            state_file = regular state_len (inr p.state);
          })).0
              ≡ ok (p.spec, p.state)))
        same
        (
          refl,
          new_state-valid env c q l (check_options-IsChecked n u sha env o c e),
          read_documents-matching boot (new_spec n u sha env c token) (new_state n u sha env c)
              spec_len state_len refl (matches-new env c token) r a b,
        )

  pub plan-valid :
      (env : PlanEnv u) (o : StartCommand) (p : Plan)
      → u.parse (u.print env.ulid) ≡ some env.ulid
      → length (u.print env.ulid) ≡ 26
      → plan n u sha env o ≡ ok p
      → validate_persisted_run_state u p.state ≡ ok tt
  plan-valid env o p q l h =
      let (c, token, e, _, same) = plan-parts env o p h in
      subst (λ (p : Plan). validate_persisted_run_state u p.state ≡ ok tt) same
        (new_state-valid env c q l (check_options-IsChecked n u sha env o c e))

  -- The limits of a plan.
  abbrev pub RuntimeBounded : Option ℕ → Type 0
  RuntimeBounded none = Unit
  RuntimeBounded (some d) = (0 < d) × (d ≤ 2592000000)

  abbrev pub IsBounded : Plan → Type 0
  IsBounded p =
      ((0 < p.spec.max_log_bytes) × (p.spec.max_log_bytes ≤ 1073741824))
      × ((0 < p.startup_timeout) × (p.startup_timeout ≤ 60000))
      × RuntimeBounded p.state.limits.max_runtime_ms
      × (p.state.limits.runtime_grace_ms ≤ 300000)
      × ((0 < p.state.readiness.timeout_ms) × (p.state.readiness.timeout_ms ≤ 3600000))
      × (is_empty p.state.command.program ≡ false)

  -- The limits of a plan are positive and at most 1 GiB for the logs, 60 seconds for the start, 30
  -- days for the runtime, if there is a limit, and one hour for the readiness; the grace is at most
  -- five minutes; and the program is not empty.
  pub plan-IsBounded :
      (env : PlanEnv u) (o : StartCommand) (p : Plan) → plan n u sha env o ≡ ok p → IsBounded p
  unfolding new_state new_spec new_command new_readiness
  plan-IsBounded env o p h =
      let (c, token, e, _, same) = plan-parts env o p h in
      let (logs, startup, runtime, grace, ready, program, _) =
        check_options-IsChecked n u sha env o c e in
      subst IsBounded same (
        logs,
        startup,
        limited c.max_runtime runtime,
        at_most c.runtime_grace 300000 grace (omega arith),
        (
          subst (λ t. 0 < t) (sym (to_u64_small c.readiness_timeout (omega arith))) ready.0,
          at_most c.readiness_timeout 3600000 ready.1 (omega arith),
        ),
        program,
      )
    where
      at_most : (t m : ℕ) → t ≤ m → m ≤ 2592000000 → to_u64 t ≤ m
      at_most t m a b = subst (λ t. t ≤ m) (sym (to_u64_small t (omega arith))) a

      limited :
          (m : Option ℕ)
          → ((d : ℕ) → m ≡ some d → (0 < d) × (d ≤ 2592000000))
          → RuntimeBounded (to_u64_option m)
      limited none k = tt
      limited (some m) k =
          let b = k m refl in subst (λ d. (0 < d) × (d ≤ 2592000000)) (sym (to_u64_small m b.1)) b
