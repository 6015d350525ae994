-- ===== src/Readiness/Invariant.antt =====
-- src/readiness.rs: what holds of the checks after any sequence of the tracker's operations, as the
-- supervisor's loop (src/supervisor.rs) makes them. Proofs.
use mathlib.Core.List.{append-nil}
use mathlib.Core.Bool.{false≢true}
use procherd.Prelude.{
  sym, ap, ◌∙◌, ◌≢◌, Option-cases, saturating_add, ℕ, zero, suc, ◌≡◌, refl, ◌⊎◌, inl, inr, true,
  false, Option, none, some, List, [], ◌∷◌, ◌++◌, arith, All, All-map_of, is_some, all, Bool-cases,
}
use procherd.Prelude.Texts.{Text, Message}
use procherd.Prelude.Occurs.{Occurs, Occurs-append}
use procherd.Model.Status.{LogStream, stdout, stderr}
use procherd.Model.Readiness.{
  ReadinessStatus, pending, ready, ReadinessCondition, tcp, http, file, log, port_lease,
  ReadinessCheck, ReadinessState,
}
use procherd.Readiness.Tracker.{
  ReadinessTracker, finish_if_ready, observe_log, observe_checks, max_tail, keep_tail,
  process_exited, PollEnv, probe, probe_at, mark_at, probe_check, poll, is_pending,
  next_external_check, tail_of, with_tail, deadline_passed, too_soon,
}
use procherd.Readiness.LogMatch.{Claims, AllClaim, Claims-swap, observe_checks-AllClaim}

-- What a check that is ready says of the streams.
abbrev pub Sound : (out err : Text) → ReadinessCondition → Option ℕ → Type 0
Sound out err (log literal) (some _) = Occurs literal out ⊎ Occurs literal err
Sound out err _ _ = Unit

abbrev pub AllSound : (out err : Text) → List ReadinessCheck → Type 0
AllSound out err = All (λ c. Sound out err c.condition c.ready_at_ms)

Claims-Sound :
    (o e t u : Text) (c : ReadinessCondition) (r : Option ℕ) → Claims o e t u c r → Sound o e c r
Claims-Sound o e t u (log literal) none w = tt
Claims-Sound o e t u (log literal) (some _) w = w
Claims-Sound o e t u (tcp _) r w = tt
Claims-Sound o e t u (http _) r w = tt
Claims-Sound o e t u (file _) r w = tt
Claims-Sound o e t u (port_lease _) r w = tt

Sound-grow :
    (o e more more' : Text) (c : ReadinessCondition) (r : Option ℕ)
    → Sound o e c r
    → Sound (o ++ more) (e ++ more') c r
Sound-grow o e more more' (log literal) none w = tt
Sound-grow o e more more' (log literal) (some _) (inl w) = inl (Occurs-append literal o more w)
Sound-grow o e more more' (log literal) (some _) (inr w) = inr (Occurs-append literal e more' w)
Sound-grow o e more more' (tcp _) r w = tt
Sound-grow o e more more' (http _) r w = tt
Sound-grow o e more more' (file _) r w = tt
Sound-grow o e more more' (port_lease _) r w = tt

pub AllClaim-AllSound :
    (out err u v : Text) (checks : List ReadinessCheck)
    → AllClaim out err u v checks
    → AllSound out err checks
AllClaim-AllSound out err u v checks a =
    All-map_of _ _ checks (λ c w. Claims-Sound out err u v c.condition c.ready_at_ms w) a

pub record Inv (out err : Text) (t : ReadinessTracker) (s : ReadinessState) : Type 0 where
  pub sound : AllSound out err s.checks
  pub waits : s.status ≡ pending → AllClaim out err t.stdout_tail t.stderr_tail s.checks
  pub done : s.status ≡ ready → all (λ c. is_some c.ready_at_ms) s.checks ≡ true

module _ (out err : Text) (t : ReadinessTracker) (s : ReadinessState) where
  finish_if_ready-Inv :
      (at : ℕ)
      → s.status ≡ pending
      → AllClaim out err t.stdout_tail t.stderr_tail s.checks
      → Inv out err t (finish_if_ready at s).0
  unfolding finish_if_ready
  finish_if_ready-Inv at p a = elim (Bool-cases (all (λ c. is_some c.ready_at_ms) s.checks)) [
    | inl e ↦
        rw (p, e)
          (record {
            sound = AllClaim-AllSound out err _ _ s.checks a;
            waits = λ q. cc;
            done = λ q. e;
          })
    | inr e ↦
        rw (p, e)
          (record {
            sound = AllClaim-AllSound out err _ _ s.checks a;
            waits = λ q. a;
            done = λ q. cc;
          })
  ]

  -- A state with other bookkeeping, over the same checks, that is neither pending nor ready.
  settled-Inv :
      (s' : ReadinessState)
      → s'.checks ≡ s.checks
      → s'.status ≢ pending
      → s'.status ≢ ready
      → Inv out err t s
      → Inv out err t s'
  settled-Inv s' e np nr v = record {
    sound = rw e v.sound;
    waits = λ q. absurd (np q);
    done = λ q. absurd (nr q);
  }

  -- Output that comes when nothing is pending is not looked at.
  grown-Inv :
      (more more' : Text)
      → is_pending s.status ≡ false
      → Inv out err t s
      → Inv (out ++ more) (err ++ more') t s
  grown-Inv more more' np v = record {
    sound =
        All-map_of _ _ s.checks (λ c w. Sound-grow out err more more' c.condition c.ready_at_ms w)
          v.sound;
    waits = λ q. absurd (false≢true (sym np ∙ ap is_pending q));
    done = v.done;
  }

AllClaim-swap :
    (o e t u : Text) (checks : List ReadinessCheck)
    → AllClaim o e t u checks
    → AllClaim e o u t checks
AllClaim-swap o e t u checks a =
    All-map_of _ _ checks (λ c w. Claims-swap o e t u c.condition c.ready_at_ms w) a

abbrev pub out_part : LogStream → Text → Text
out_part stdout s = s
out_part stderr s = []

abbrev pub err_part : LogStream → Text → Text
err_part stdout s = []
err_part stderr s = s

is_pending→eq : (s : ReadinessStatus) → is_pending s ≡ true → s ≡ pending
is_pending→eq s h = ground arith

observed-AllClaim :
    (clock : ℕ → ℕ) (stream : LogStream) (bytes out err : Text) (t : ReadinessTracker)
    (checks : List ReadinessCheck)
    → AllClaim out err t.stdout_tail t.stderr_tail checks
    → let r = (observe_checks clock 0 stream (tail_of stream t ++ bytes) checks).0 in
      let t' = with_tail stream (keep_tail (max_tail r) (tail_of stream t ++ bytes)) t in
      AllClaim
        (out ++ out_part stream bytes)
        (err ++ err_part stream bytes)
        t'.stdout_tail
        t'.stderr_tail
        r
unfolding max_tail
observed-AllClaim clock stdout bytes out err t checks a = rw append-nil (
    observe_checks-AllClaim clock 0 stdout out err t.stdout_tail t.stderr_tail bytes _ checks a
      (omega arith))
observed-AllClaim clock stderr bytes out err t checks a = rw append-nil (
    AllClaim-swap _ _ _ _ _ (
      observe_checks-AllClaim clock 0 stderr err out t.stderr_tail t.stdout_tail bytes _ checks
        (AllClaim-swap _ _ _ _ checks a) (omega arith)))

pub observe_log-Inv :
    (clock : ℕ → ℕ) (at : ℕ) (stream : LogStream) (bytes out err : Text) (t : ReadinessTracker)
    (s : ReadinessState)
    → Inv out err t s
    → let r = observe_log clock at stream bytes t s in
      Inv (out ++ out_part stream bytes) (err ++ err_part stream bytes) r.0 r.1
unfolding observe_log
observe_log-Inv clock at stream bytes out err t s v = elim (Bool-cases (is_pending s.status)) [
  | inl p ↦ rw p (
      finish_if_ready-Inv _ _ _
        (record s {
          checks = (observe_checks clock 0 stream (tail_of stream t ++ bytes) s.checks).0;
        })
        at (is_pending→eq s.status p)
        (observed-AllClaim clock stream bytes out err t s.checks
          (v.waits (is_pending→eq s.status p))))
  | inr p ↦ rw p (grown-Inv out err t s _ _ p v)
]

-- A probe answers for a check that waits for no literal.
mark_at-AllClaim :
    (env : PollEnv) (at i : ℕ) (e : Message) (o r t u : Text) (checks : List ReadinessCheck)
    → probe_at env checks i ≡ some e
    → AllClaim o r t u checks
    → AllClaim o r t u (mark_at at e i checks)
unfolding mark_at
mark_at-AllClaim env at i e o r t u [] h a = tt
mark_at-AllClaim env at zero e o r t u (c ∷ cs) h (a, as') = (probed c.condition h, as')
  where
    probed : (k : ReadinessCondition) → probe env k ≡ some e → Claims o r t u k (some at)
    probed (tcp _) p = tt
    probed (http _) p = tt
    probed (file _) p = tt
    probed (log _) p = absurd (cc)
    probed (port_lease _) p = tt
mark_at-AllClaim env at (suc i) e o r t u (c ∷ cs) h (a, as') =
    (a, mark_at-AllClaim env at i e o r t u cs h as')

-- Only the tails of the tracker matter.
retracked-Inv :
    (out err : Text) (t t' : ReadinessTracker) (s : ReadinessState)
    → t'.stdout_tail ≡ t.stdout_tail
    → t'.stderr_tail ≡ t.stderr_tail
    → Inv out err t s
    → Inv out err t' s
retracked-Inv out err t t' s p q v = record {
  sound = v.sound;
  waits = λ h. rw (p, q) (v.waits h);
  done = v.done;
}

probe_check-Inv :
    (env : PollEnv) (i : ℕ) (out err : Text) (t : ReadinessTracker) (s : ReadinessState)
    → s.status ≡ pending
    → Inv out err t s
    → let r = probe_check env i t s in Inv out err r.0 r.1
unfolding probe_check
probe_check-Inv env i out err t s p v = elim (Option-cases (probe_at env s.checks i)) [
  | inl e ↦ rw (e, probe_check) (retracked-Inv out err t _ s refl refl v)
  | inr (m, e) ↦
      rw (e, probe_check)
        (finish_if_ready-Inv out err (record t { next_probe_index = saturating_add i 1 })
          (record s { checks = mark_at env.observed_at m i s.checks }) env.finish_at p
          (mark_at-AllClaim env env.observed_at i m out err _ _ s.checks e (v.waits p)))
]

pub poll-Inv :
    (env : PollEnv) (out err : Text) (t : ReadinessTracker) (s : ReadinessState)
    → Inv out err t s
    → let r = poll env t s in Inv out err r.0 r.1
unfolding poll
poll-Inv env out err t s v = elim (Bool-cases (is_pending s.status)) [
  | inr p ↦ rw p v
  | inl p ↦ elim (Bool-cases (deadline_passed env.now s.deadline_at_ms)) [
    | inl d ↦ rw (p, d) (settled-Inv out err t s _ refl (λ q. cc) (λ q. cc) v)
    | inr d ↦ elim (Bool-cases (too_soon env.instant t.last_probe)) [
      | inl o ↦ rw (p, d, o) v
      | inr o ↦
          let t' = record t { last_probe = some env.probe_instant } in
          let v' = retracked-Inv out err t t' s refl refl v in
          let w = is_pending→eq s.status p in
          elim (Option-cases (next_external_check t' s)) [
            | inl n ↦
                rw (p, d, o, n) (finish_if_ready-Inv out err t' s env.finish_at w (v'.waits w))
            | inr (i, n) ↦ rw (p, d, o, n) (probe_check-Inv env i out err t' s w v')
          ]
    ]
  ]
]

pub process_exited-Inv :
    (out err : Text) (t : ReadinessTracker) (s : ReadinessState)
    → Inv out err t s
    → Inv out err t (process_exited s).0
unfolding process_exited
process_exited-Inv out err t s v = elim (Bool-cases (is_pending s.status)) [
  | inl p ↦ rw p (settled-Inv out err t s _ refl (λ q. cc) (λ q. cc) v)
  | inr p ↦ rw p v
]
