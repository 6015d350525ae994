-- ===== src/Supervisor/Loop/Terminal.antt =====
-- src/supervisor.rs: the state document over the loop. Proofs.
use mathlib.Core.Path.{subst}
use procherd.Prelude.{
  ℕ, zero, suc, ◌≡◌, refl, Bool, true, false, Option, none, some, List, [], ◌∷◌, arith, is_some, ap,
  Bool-cases, inl, inr, leb, not, ◌&&◌, ◌-◌, if◌then◌else◌,
}
use procherd.Error.{AppError, Result, ok, err, >>=-eq-ok, ok_injective}
use procherd.Model.Status.{is_live, is_terminal, ExitReason}
use procherd.Model.Run.{RunState}
use procherd.Model.Documents.{SupervisorSpec, StopRequest}
use procherd.Readiness.Tracker.{deadline_passed, is_pending}
use procherd.Readiness.Tracker
use procherd.Leases.Allocation.{
  LeaseAllocation, NothingHeld, release, release_registry, release_leases, with_leases,
  release_leases-NothingHeld,
}
use procherd.Logs.Writer.{Sha256, Base64}
use procherd.Supervisor.Body.{
  Keeps, give, continue, continue-keeps, continue-post, continue-ok, continue-lift,
}
use procherd.Supervisor.Stopping.{Stopping, mark_cleanup, ExitStatus}
use procherd.Supervisor.Loop.{
  Received, Turn, Live, in_state, record_chunk, drain_available, drain_until_closed, persist_state,
  write_change, send_stop, stop_at_limit, on_request, force_stop, watch_for, end_status,
  exit_readiness, final_state, killed_late, finalize, heartbeat, reap, before_wait, iteration,
  supervise_loop, log_drain_batch_chunks, state_write_interval,
}

module _ (sha : Sha256) (b64 : Base64) where
  -- In memory and on the disk, the run is live.
  abbrev pub Runs : Live sha b64 → Type 0
  Runs l = (is_live l.state.status ≡ true) × (is_live l.disk.status ≡ true)

  record_chunk-Runs : (r : Received) → Keeps Runs (record_chunk sha b64 r)
  unfolding record_chunk
  record_chunk-Runs r l p = continue-keeps Runs _ _ p (λ l s q.
      continue-keeps Runs _ _ q
        (λ _ s q. continue-keeps Runs _ _ q (λ w s q. continue-keeps Runs _ _ q (λ _ s q. q))))

  drain_available-Runs : (n : ℕ) (rs : List Received) → Keeps Runs (drain_available sha b64 n rs)
  unfolding drain_available
  drain_available-Runs zero rs l p = p
  drain_available-Runs (suc n) [] l p = p
  drain_available-Runs (suc n) (r ∷ rs) l p =
      continue-keeps Runs _ _ (record_chunk-Runs r l p)
        (λ c s q. continue-keeps Runs _ _ (drain_available-Runs n rs s q) (λ d s q. q))

  drain_until_closed-Runs :
      (c : Bool) (rs : List Received) → Keeps Runs (drain_until_closed sha b64 c rs)
  unfolding drain_until_closed
  drain_until_closed-Runs true [] l p = p
  drain_until_closed-Runs false [] l p = p
  drain_until_closed-Runs true (r ∷ rs) l p =
      continue-keeps Runs _ _ (record_chunk-Runs r l p) (λ c. drain_until_closed-Runs true rs)
  drain_until_closed-Runs false (r ∷ rs) l p =
      continue-keeps Runs _ _ (record_chunk-Runs r l p) (λ c. drain_until_closed-Runs false rs)

  persist_state-Runs : (o : Option AppError) → Keeps Runs (persist_state sha b64 o)
  unfolding persist_state
  persist_state-Runs none l p = (p.0, p.0)
  persist_state-Runs (some e) l p = p

  write_change-Runs : (b : Bool) (t : Turn) → Keeps Runs (write_change sha b64 b t)
  unfolding write_change
  write_change-Runs false t l p = p
  write_change-Runs true t l p =
      continue-keeps Runs _ _ p
        (λ _ s q. continue-keeps Runs _ _ (persist_state-Runs (t.persisted 0) s q) (λ _ s q. q))

  send_stop-Runs :
      (t : Turn) (grace : ℕ) (r : ExitReason) → Keeps Runs (send_stop sha b64 t grace r)
  unfolding send_stop
  send_stop-Runs t grace r l p = continue-keeps Runs _ _ p (λ _ s q.
      continue-keeps Runs _ _ q
        (λ _ s q. continue-keeps Runs _ _ q (λ _. persist_state-Runs (t.persisted 1))))

  stop_at_limit-Runs :
      (spec : SupervisorSpec) (t : Turn) (b : Bool) → Keeps Runs (stop_at_limit sha b64 spec t b)
  unfolding stop_at_limit is_live
  stop_at_limit-Runs spec t false l p = p
  stop_at_limit-Runs spec t true l p =
      continue-keeps Runs _ _ (refl, p.1) (λ _. send_stop-Runs t spec.runtime_grace_ms _)

  on_request-Runs :
      (spec : SupervisorSpec) (t : Turn) (r : Option StopRequest)
      → Keeps Runs (on_request sha b64 spec t r)
  unfolding on_request is_live
  on_request-Runs spec t (some r) l p =
      continue-keeps Runs _ _ (refl, p.1) (λ _. send_stop-Runs t r.grace_ms _)
  on_request-Runs spec t none l p =
      continue-keeps Runs _ _ p (λ passed. stop_at_limit-Runs spec t passed)

  force_stop-Runs : (t : Turn) (s : Stopping) → Keeps Runs (force_stop sha b64 t s)
  unfolding force_stop
  force_stop-Runs t s l p = elim (Bool-cases (not s.force_sent && leb s.deadline t.instant)) [
    | inl e ↦ rw e (
        continue-keeps Runs _ _ p (λ killed s q.
          continue-keeps Runs _ _ (marked killed s q) (λ _ s q.
            continue-keeps Runs _ _ q
              (λ _ s q. continue-keeps Runs _ _ q (λ _. persist_state-Runs (t.persisted 1))))))
    | inr e ↦ rw e p
  ]
    where
      marked :
          (killed : Bool) (s : Live sha b64)
          → Runs s
          → Runs ((if killed then in_state sha b64 mark_cleanup else (λ l. l)) s)
      marked true s q = q
      marked false s q = q

  watch_for-Runs :
      (spec : SupervisorSpec) (t : Turn) (h : Option Stopping)
      → Keeps Runs (watch_for sha b64 spec t h)
  unfolding watch_for
  watch_for-Runs spec t none l p = continue-keeps Runs _ _ p (on_request-Runs spec t)
  watch_for-Runs spec t (some s) l p = force_stop-Runs t s l p

  before_wait-Runs : (spec : SupervisorSpec) (t : Turn) → Keeps Runs (before_wait sha b64 spec t)
  unfolding before_wait
  before_wait-Runs spec t l p =
      continue-keeps Runs _ _ (drain_available-Runs log_drain_batch_chunks t.received l p) (λ c s q.
        continue-keeps Runs _ _ q (λ d s q.
          continue-keeps Runs _ _ (write_change-Runs _ t s q)
            (λ _ s q. continue-keeps Runs _ _ q (λ h. watch_for-Runs spec t h))))

  -- A final state of the loop.
  abbrev pub EndedState : Option Stopping → RunState → Type 0
  EndedState halt d =
      (is_terminal d.status ≡ true)
      × (d.status ≡ end_status sha b64 halt)
      × (is_some d.exit ≡ true)
      × (is_some d.cleanup.completed_at_ms ≡ true)
      × (is_pending d.readiness.status ≡ false)
      × NothingHeld d.leases

  abbrev pub Ended : Live sha b64 → Type 0
  Ended l = EndedState l.halt l.disk

  AfterFinal : Result (Unit {0}) × Live sha b64 → Type 0
  AfterFinal (ok _, l) = Ended l
  AfterFinal (err _, l) = is_live l.disk.status ≡ true

  exit-readiness : (s : RunState) → is_pending (exit_readiness sha b64 s).readiness.status ≡ false
  unfolding Tracker.process_exited
  exit-readiness s = ground arith

  release-result :
      (u : Result (Unit {0})) (at : ℕ) (a a' : LeaseAllocation) (s s' : RunState)
      → release u at a s ≡ ok (a', s')
      → with_leases (release_leases at s.leases) s ≡ s'
  unfolding release
  release-result u at a a' s s' h =
      let (x, e, h) = >>=-eq-ok (release_registry u a) _ h in
      ap (λ p. p.1) (ok_injective (x, with_leases (release_leases at s.leases) s) (a', s') h)

  final_state-EndedState :
      (t : Turn) (status : ExitStatus) (h : Option Stopping) (at : ℕ) (s : RunState)
      → is_pending s.readiness.status ≡ false
      → EndedState h (final_state sha b64 t status h (with_leases (release_leases at s.leases) s))
  unfolding is_terminal
  final_state-EndedState t status none at s p =
      (refl, refl, refl, refl, p, release_leases-NothingHeld at s.leases)
  final_state-EndedState t status (some h) at s p =
      (refl, refl, refl, refl, p, release_leases-NothingHeld at s.leases)

  persist_state-AfterFinal :
      (o : Option AppError) (l : Live sha b64)
      → EndedState l.halt l.state
      → is_live l.disk.status ≡ true
      → AfterFinal (persist_state sha b64 o l)
  unfolding AfterFinal persist_state
  persist_state-AfterFinal none l p q = p
  persist_state-AfterFinal (some e) l p q = q

  finalize-AfterFinal :
      (t : Turn) (status : ExitStatus) (l : Live sha b64)
      → Runs l
      → AfterFinal (finalize sha b64 t status l)
  unfolding finalize AfterFinal
  finalize-AfterFinal t status l p =
      continue-post Runs AfterFinal _ _ p
        (λ killed s q.
          continue-post Runs AfterFinal _ _ (late killed s q)
            (λ _ s q.
              continue-post Runs AfterFinal _ _ (drain_until_closed-Runs t.closed t.late s q)
                (λ _ s q. continue-ok AfterFinal _ _ _ (
                  continue-ok AfterFinal _ _ _ (
                    continue-lift AfterFinal _ _ _
                      (λ w e. continue-ok AfterFinal _ _ _ (
                        continue-ok AfterFinal _ _ _ (
                          continue-lift AfterFinal _ _ _
                            (λ r e'. continue-ok AfterFinal _ _ _ (
                              persist_state-AfterFinal (t.persisted 2) _
                                (subst
                                  (λ x. EndedState s.halt (final_state sha b64 t status s.halt x))
                                  (release-result t.registry t.released_at s.leases r.0
                                    (record (exit_readiness sha b64 s.state) { logs = w }) r.1 e')
                                  (final_state-EndedState t status s.halt t.released_at
                                    (record (exit_readiness sha b64 s.state) { logs = w })
                                    (exit-readiness s.state)))
                                q.1))
                            (λ e. q.1))))
                      (λ e. q.1))))
                (λ e s q. q.1))
            (λ e s q. q.1))
        (λ e s q. q.1)
    where
      late : (killed : Bool) (s : Live sha b64) → Runs s → Runs (killed_late sha b64 killed s)
      late false s q = q
      late true s q = ground arith

  heartbeat-Runs : (t : Turn) → Keeps Runs (heartbeat sha b64 t)
  unfolding heartbeat
  heartbeat-Runs t l p =
      elim (Bool-cases (leb state_write_interval (t.heartbeat_instant - l.last_state_write))) [
        | inl e ↦ rw e (
            continue-keeps Runs _ _ p (λ _ s q.
              continue-keeps Runs _ _ (persist_state-Runs (t.persisted 2) s q) (λ _ s q. q)))
        | inr e ↦ rw e p
      ]

  -- What is known at the end of one iteration, or of the whole loop.
  abbrev pub Outcome : Result Bool × Live sha b64 → Type 0
  Outcome (ok true, l) = Ended l
  Outcome (ok false, l) = Runs l
  Outcome (err _, l) = is_live l.disk.status ≡ true

  finished-Outcome :
      (r : Result (Unit {0}) × Live sha b64) → AfterFinal r → Outcome (continue r (λ _. give true))
  unfolding AfterFinal continue
  finished-Outcome (ok _, l) h = h
  finished-Outcome (err _, l) h = h

  reap-Outcome :
      (t : Turn) (w : Option ExitStatus) (l : Live sha b64) → Runs l → Outcome (reap sha b64 t w l)
  unfolding reap
  reap-Outcome t none l p =
      continue-post Runs Outcome _ _ (heartbeat-Runs t l p) (λ _ s q. q) (λ e s q. q.1)
  reap-Outcome t (some status) l p = finished-Outcome _ (finalize-AfterFinal t status l p)

  -- One iteration of the loop, from a run that is live in memory and on the disk, on whatever it
  -- reads from outside: if it goes on, the run is live in both; if it returns an error, the state on
  -- the disk is live; and if the loop returns, the state on the disk is terminal, stopped if
  -- a stop was under way and else exited, with an exit record and a completion time, its readiness
  -- no longer pending and no lease held.
  pub iteration-Outcome :
      (spec : SupervisorSpec) (t : Turn) (l : Live sha b64)
      → Runs l
      → Outcome (iteration sha b64 spec t l)
  unfolding iteration
  iteration-Outcome spec t l p =
      continue-post Runs Outcome _ _ (before_wait-Runs spec t l p)
        (λ _ s q. continue-lift Outcome _ _ _ (λ w e. reap-Outcome t w s q) (λ e. q.1))
        (λ e s q. q.1)

  next-Outcome :
      (spec : SupervisorSpec) (ts : List Turn) (r : Result Bool × Live sha b64)
      → Outcome r
      → ((l : Live sha b64) → Runs l → Outcome (supervise_loop sha b64 spec ts l))
      → Outcome
          (continue r (λ returned. if returned then give true else supervise_loop sha b64 spec ts))
  unfolding continue supervise_loop
  next-Outcome spec ts (ok true, l) h k = h
  next-Outcome spec ts (ok false, l) h k = k l h
  next-Outcome spec ts (err _, l) h k = h

  pub supervise_loop-Outcome :
      (spec : SupervisorSpec) (ts : List Turn) (l : Live sha b64)
      → Runs l
      → Outcome (supervise_loop sha b64 spec ts l)
  unfolding supervise_loop
  supervise_loop-Outcome spec [] l p = p
  supervise_loop-Outcome spec (t ∷ ts) l p =
      next-Outcome spec ts _ (iteration-Outcome spec t l p) (supervise_loop-Outcome spec ts)
