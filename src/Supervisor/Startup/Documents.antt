-- ===== src/Supervisor/Startup/Documents.antt =====
-- src/supervisor.rs: the state document over the start of a supervisor. Proofs.
use mathlib.Core.Path.{subst}
use procherd.Prelude.{
  ℕ, ◌≤◌, ◌≡◌, refl, ap, ◌⊎◌, inl, inr, Bool, true, Option, none, some, List, is_some,
}
use procherd.Prelude.Texts.{Text}
use procherd.Error.{AppError, Result, ok, err, >>=-eq-ok, ok_injective, for_each}
use procherd.Model.Status.{is_live, is_terminal}
use procherd.Model.Run.{RunState, LeaseRequests}
use procherd.Model.Documents.{SupervisorSpec}
use procherd.Leases.Registry.{ReservedPort}
use procherd.Leases.Allocation.{
  LeaseAllocation, NothingHeld, release, release_registry, release_leases-NothingHeld, record_spawn,
}
use procherd.Leases.Names.{validate_names}
use procherd.Leases.Populate.{acquire, populate_state}
use procherd.Logs.Writer.{Sha256, Base64}
use procherd.Store.Files.{regular, document_limit}
use procherd.Store.RunId.{Ulid, canonical_run_id}
use procherd.Supervisor.Body.{continue, continue-post, continue-ok, continue-lift}
use procherd.Supervisor.Loop.{Live}
use procherd.Supervisor.Loop.Terminal.{Runs}
use procherd.Supervisor.Startup.{
  Boot, BootEnv, written_state, write_state, read_documents, starting_state, spawn_failed_state,
  running_state, begun, after_spawn, boot,
}

-- A document of the length that its state is printed in, or one that the code reads.
abbrev pub HasLength : BootEnv → ℕ → RunState → Type 0
HasLength env n s = (n ≤ document_limit) ⊎ (n ≡ env.printed s)

-- The state document is there, and its state has a property.
abbrev pub Doc : BootEnv → (RunState → Type 0) → Boot → Type 0
Doc env P b =
    (n : ℕ) × (s : RunState) × (b.state_file ≡ regular n (inr s)) × HasLength env n s × P s

abbrev pub IsLive : RunState → Type 0
IsLive s = is_live s.status ≡ true

-- A terminal state that says how the run ended, and holds no lease.
abbrev pub IsFinished : RunState → Type 0
IsFinished s = (is_terminal s.status ≡ true) × (is_some s.exit ≡ true) × NothingHeld s.leases

abbrev pub IsSettled : RunState → Type 0
IsSettled s = IsLive s ⊎ IsFinished s

pub live-IsSettled : (env : BootEnv) (b : Boot) → Doc env IsLive b → Doc env IsSettled b
live-IsSettled env b (n, s, e, l, p) = (n, s, e, l, inl p)

populate_state-status :
    (is_utf8 : Text → Bool) (a a' : LeaseAllocation) (s s' : RunState) (at : ℕ)
    (paths : List (Text × Text))
    → populate_state is_utf8 a s at paths ≡ ok (a', s')
    → s.status ≡ s'.status
unfolding populate_state
populate_state-status is_utf8 a a' s s' at paths h =
    let (_, _, h) = >>=-eq-ok (for_each _ paths) _ h in
    let (_, _, h) = >>=-eq-ok (for_each _ s.leases.ports) _ h in
    let (_, _, h) = >>=-eq-ok (for_each _ s.leases.temp_directories) _ h in
    let (_, _, h) = >>=-eq-ok (for_each _ s.command.args) _ h in
    let (_, _, h) = >>=-eq-ok (for_each _ s.readiness.checks) _ h in
    ap (λ (q : LeaseAllocation × RunState). q.1.status) (ok_injective _ (a', s') h)

acquire-status :
    (u : Ulid) (is_utf8 : Text → Bool) (at : ℕ) (temps : Result (List (Text × Text)))
    (reserved : Result (List ReservedPort)) (requests : LeaseRequests) (s s' : RunState)
    (a : LeaseAllocation)
    → acquire u is_utf8 at temps reserved requests s ≡ ok (a, s')
    → s.status ≡ s'.status
unfolding acquire
acquire-status u is_utf8 at temps reserved requests s s' a h =
    let (_, _, h) = >>=-eq-ok (canonical_run_id u s.run_id) _ h in
    let (_, _, h) = >>=-eq-ok (validate_names requests.port_names) _ h in
    let (_, _, h) = >>=-eq-ok (validate_names requests.temp_directory_names) _ h in
    let (paths, _, h) = >>=-eq-ok temps _ h in
    let (ports, _, h) = >>=-eq-ok reserved _ h in populate_state-status is_utf8 _ a s s' at paths h

module _ (env : BootEnv) where
  written_state-Doc :
      (P : RunState → Type 0) (s : RunState) (b : Boot) (o : Option AppError)
      → P s
      → Doc env P b
      → Doc env P (written_state env s o b).1
  unfolding written_state
  written_state-Doc P s b (some e) p d = d
  written_state-Doc P s b none p d = (env.printed s, s, refl, inr refl, p)

  -- Writing keeps the property.
  write_state-Doc :
      (P : RunState → Type 0) (i : ℕ) (s : RunState) (b : Boot)
      → P s
      → Doc env P b
      → Doc env P (write_state env i s b).1
  unfolding write_state
  write_state-Doc P i s b p d = written_state-Doc P s b (env.persisted i) p d

  read_documents-Doc :
      (P : RunState → Type 0) (b : Boot) → Doc env P b → Doc env P (read_documents env b).1
  unfolding read_documents
  read_documents-Doc P b d = continue-ok Q _ _ _ (
      continue-lift Q _ _ _
        (λ spec _.
          continue-lift Q _ _ _
            (λ _ _.
              continue-lift Q _ _ _
                (λ s _.
                  continue-lift Q _ _ _
                    (λ _ _. continue-lift Q _ _ _ (λ _ _. continue-ok Q _ _ _ d) (λ e. d)) (λ e. d))
                (λ e. d))
            (λ e. d))
        (λ e. d))
    where
      Q : Result (SupervisorSpec × RunState) × Boot → Type 0
      Q r = Doc env P r.1

module _ (u : Ulid) (sha : Sha256) (b64 : Base64) (env : BootEnv) where
  abbrev pub AfterBoot : Result (SupervisorSpec × Live sha b64) × Boot → Type 0
  AfterBoot (ok (spec, l), b) = Runs sha b64 l
  AfterBoot (err _, b) = Doc env IsSettled b

module _ (u : Ulid) (sha : Sha256) (b64 : Base64) (env : BootEnv) where
  abbrev AfterSpawn : Result (Live sha b64) × Boot → Type 0
  AfterSpawn (ok l, b) = Runs sha b64 l
  AfterSpawn (err _, b) = Doc env IsSettled b

  released-IsFinished :
      (r : Result (Unit {0})) (at : ℕ) (a a' : LeaseAllocation) (e : Text) (s s' : RunState)
      → release r at a (spawn_failed_state env e s) ≡ ok (a', s')
      → IsFinished s'
  unfolding release is_terminal
  released-IsFinished r at a a' e s s' h =
      let (x, _, h) = >>=-eq-ok (release_registry r a) _ h in
      subst IsFinished (ap (λ p. p.1) (ok_injective _ (a', s') h))
        (refl, refl, release_leases-NothingHeld at s.leases)

  after_spawn-AfterSpawn :
      (spec : SupervisorSpec) (a : LeaseAllocation) (s : RunState) (r : Text ⊎ ℕ) (b : Boot)
      → Doc env IsLive b
      → AfterSpawn (after_spawn u sha b64 env spec a s r b)
  unfolding after_spawn begun is_live
  after_spawn-AfterSpawn spec a s (inl e) b d =
      continue-lift AfterSpawn _ _ _
        (λ x h.
          continue-post (Doc env IsSettled) AfterSpawn _ _
            (write_state-Doc env IsSettled 2 x.1 b
              (inr (released-IsFinished env.registry env.released_at a x.0 e s x.1 h))
              (live-IsSettled env b d))
            (λ _ c q. q) (λ e c q. q))
        (λ e. live-IsSettled env b d)
  after_spawn-AfterSpawn spec a s (inr pid) b d =
      continue-post (Doc env IsLive) AfterSpawn _ _
        (write_state-Doc env IsLive 2 (running_state env spec pid (record_spawn env.spawned_at s)) b
          refl d)
        (λ _ c q.
          continue-lift AfterSpawn _ _ _ (λ _ _. (refl, refl)) (λ e. live-IsSettled env c q))
        (λ e c q. live-IsSettled env c q)

  paired-AfterBoot :
      (spec : SupervisorSpec) (r : Result (Live sha b64) × Boot)
      → AfterSpawn r
      → AfterBoot u sha b64 env (continue r (λ l c. (ok (spec, l), c)))
  unfolding continue
  paired-AfterBoot spec (ok l, b) p = p
  paired-AfterBoot spec (err e, b) p = p

  -- From a live state document, the start gives a live run in memory and on the disk, or an error
  -- with a document that is live or final.
  pub boot-AfterBoot :
      (b : Boot) → Doc env IsLive b → AfterBoot u sha b64 env (boot u sha b64 env b)
  unfolding boot is_live
  boot-AfterBoot b d =
      continue-post (Doc env IsLive) Q _ _ (read_documents-Doc env IsLive b d)
        (λ x c q.
          continue-post (Doc env IsLive) Q _ _
            (write_state-Doc env IsLive 0 (starting_state env x.1) c refl q)
            (λ _ c q.
              continue-lift Q _ _ _
                (λ _ _.
                  continue-lift Q _ _ _
                    (λ y h.
                      continue-post (Doc env IsLive) Q _ _
                        (write_state-Doc env IsLive 1 y.1 c
                          (subst (λ t. is_live t ≡ true)
                            (acquire-status u env.is_utf8 env.acquired_at env.temps env.reserved
                              x.0.lease_requests (starting_state env x.1) y.1 y.0 h)
                            refl)
                          q)
                        (λ _ c q.
                          paired-AfterBoot x.0 _ (after_spawn-AfterSpawn x.0 _ _ env.spawned c q))
                        (λ e c q. live-IsSettled env c q))
                    (λ e. live-IsSettled env c q))
                (λ e. live-IsSettled env c q))
            (λ e c q. live-IsSettled env c q))
        (λ e c q. live-IsSettled env c q)
    where
      Q : Result (SupervisorSpec × Live sha b64) × Boot → Type 0
      Q = AfterBoot u sha b64 env
