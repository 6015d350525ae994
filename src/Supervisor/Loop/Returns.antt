-- ===== src/Supervisor/Loop/Returns.antt =====
-- src/supervisor.rs: the loop ends when the child has exited. Proofs.
use procherd.Prelude.{
  ◌≡◌, ◌≢◌, refl, Bool, true, false, ◌||◌, Option, none, some, List, [], ◌∷◌, any, if◌then◌else◌,
}
use procherd.Error.{Result, ok, err}
use procherd.Model.Documents.{SupervisorSpec}
use procherd.Logs.Writer.{Sha256, Base64}
use procherd.Supervisor.Body.{give, continue, continue-post, continue-lift}
use procherd.Supervisor.Stopping.{ExitStatus}
use procherd.Supervisor.Loop.{Turn, Live, finalize, reap, iteration, supervise_loop}

-- The child's status is there.
abbrev pub is_exited : Result (Option ExitStatus) → Bool
is_exited (ok (some _)) = true
is_exited _ = false

module _ (sha : Sha256) (b64 : Base64) where
  -- A result that is not `false`, if the child has exited.
  abbrev GoesOn : Turn → Result Bool × Live sha b64 → Type 0
  GoesOn t r = r.0 ≡ ok false → is_exited t.waited ≡ false

  true_ne_false : ◌≢◌ {A = Result Bool} (ok true) (ok false)
  true_ne_false h = cc

  finalized : (r : Result (Unit {0}) × Live sha b64) → (continue r (λ _. give true)).0 ≢ ok false
  unfolding continue
  finalized (ok _, l) h = true_ne_false h
  finalized (err _, l) h = cc

  reap-GoesOn :
      (t : Turn) (w : Option ExitStatus) (l : Live sha b64)
      → t.waited ≡ ok w
      → GoesOn t (reap sha b64 t w l)
  unfolding reap
  reap-GoesOn t none l e h = rw e refl
  reap-GoesOn t (some status) l e h = absurd (finalized (finalize sha b64 t status l) h)

  iteration-GoesOn :
      (spec : SupervisorSpec) (t : Turn) (l : Live sha b64) → GoesOn t (iteration sha b64 spec t l)
  unfolding iteration
  iteration-GoesOn spec t l =
      continue-post (λ _. Unit {0}) (GoesOn t) _ _ tt
        (λ _ s _. continue-lift (GoesOn t) t.waited s _ (λ w e. reap-GoesOn t w s e) (λ e h. cc))
        (λ e s _ h. cc)

  next-returns :
      (spec : SupervisorSpec) (ts : List Turn) (exits : Bool) (r : Result Bool × Live sha b64)
      → (r.0 ≡ ok false → exits ≡ false)
      → (exits || any (λ (t : Turn). is_exited t.waited) ts) ≡ true
      → ((l : Live sha b64)
          → any (λ (t : Turn). is_exited t.waited) ts ≡ true
          → (supervise_loop sha b64 spec ts l).0 ≢ ok false)
      → (continue r (λ returned. if returned then give true else supervise_loop sha b64 spec ts)).0
        ≢ ok false
  unfolding continue
  next-returns spec ts exits (ok true, l) g a k h = true_ne_false h
  next-returns spec ts true (ok false, l) g a k h = cc (g refl)
  next-returns spec ts false (ok false, l) g a k h = k l a h
  next-returns spec ts exits (err _, l) g a k h = cc

  -- If the child's status is found in one of the iterations, then the loop returns within them, with
  -- or without an error, whatever else is read.
  pub supervise_loop-returns :
      (spec : SupervisorSpec) (ts : List Turn) (l : Live sha b64)
      → any (λ (t : Turn). is_exited t.waited) ts ≡ true
      → (supervise_loop sha b64 spec ts l).0 ≢ ok false
  unfolding supervise_loop
  supervise_loop-returns spec [] l a h = cc
  supervise_loop-returns spec (t ∷ ts) l a h =
      next-returns spec ts (is_exited t.waited) (iteration sha b64 spec t l)
        (iteration-GoesOn spec t l) a (supervise_loop-returns spec ts) h
