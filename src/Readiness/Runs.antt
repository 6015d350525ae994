-- ===== src/Readiness/Runs.antt =====
-- src/readiness.rs: the tracker over a whole run, as the supervisor's loop (src/supervisor.rs)
-- calls it. Proofs.
use mathlib.Core.List.{append-nil, append_assoc}
use procherd.Prelude.{
  ℕ, ◌+◌, ◌≤◌, ◌≡◌, ◌⊎◌, inl, inr, true, false, Option, none, some, List, [], ◌∷◌, ◌++◌, arith,
  length, All, is_some, all, &&-eq_true,
}
use procherd.Prelude.Texts.{Text}
use procherd.Prelude.Occurs.{Occurs}
use procherd.Model.Status.{LogStream}
use procherd.Model.Readiness.{
  ReadinessStatus, pending, ready, ReadinessCondition, tcp, http, file, log, port_lease,
  ReadinessCheck, ReadinessState, new_checks, new_readiness,
}
use procherd.Readiness.Tracker.{
  ReadinessTracker, new_tracker, observe_log, process_exited, PollEnv, poll,
}
use procherd.Readiness.LogMatch.{Claims, AllClaim, Waits, Covers-start}
use procherd.Readiness.Invariant.{
  Inv, Sound, AllSound, AllClaim-AllSound, out_part, err_part, observe_log-Inv, poll-Inv,
  process_exited-Inv,
}

-- What the supervisor does with a tracker.
pub data Event : Type 0 where
  observe : (ℕ → ℕ) → ℕ → LogStream → Text → Event
  polled : PollEnv → Event
  exited : Event

abbrev pub step : Event → ReadinessTracker × ReadinessState → ReadinessTracker × ReadinessState
step (observe clock at stream bytes) (t, s) =
    let r = observe_log clock at stream bytes t s in (r.0, r.1)
step (polled env) (t, s) = let r = poll env t s in (r.0, r.1)
step exited (t, s) = (t, (process_exited s).0)

unfoldable pub run :
    List Event → ReadinessTracker × ReadinessState → ReadinessTracker × ReadinessState
run [] p = p
run (e ∷ es) p = run es (step e p)

-- The bytes of each stream that the events show to the tracker.
abbrev pub out_of : List Event → Text
out_of [] = []
out_of (observe _ _ stream bytes ∷ es) = out_part stream bytes ++ out_of es
out_of (_ ∷ es) = out_of es

abbrev pub err_of : List Event → Text
err_of [] = []
err_of (observe _ _ stream bytes ∷ es) = err_part stream bytes ++ err_of es
err_of (_ ∷ es) = err_of es

run-Inv :
    (es : List Event) (out err : Text) (t : ReadinessTracker) (s : ReadinessState)
    → Inv out err t s
    → let r = run es (t, s) in Inv (out ++ out_of es) (err ++ err_of es) r.0 r.1
unfolding run
run-Inv [] out err t s v = rw (append-nil out, append-nil err) v
run-Inv (observe clock at stream bytes ∷ es) out err t s v =
    rw (← append_assoc out, ← append_assoc err)
      (run-Inv es _ _ _ _ (observe_log-Inv clock at stream bytes out err t s v))
run-Inv (polled env ∷ es) out err t s v = run-Inv es _ _ _ _ (poll-Inv env out err t s v)
run-Inv (exited ∷ es) out err t s v = run-Inv es _ _ _ _ (process_exited-Inv out err t s v)

-- What `build_conditions` ensures of a literal.
abbrev pub LiteralFits : ReadinessCondition → Type 0
LiteralFits (log literal) = (1 ≤ length literal) × (length literal ≤ 1024)
LiteralFits _ = Unit

not_in_nothing : (literal : Text) → 1 ≤ length literal → ¬ Occurs literal []
not_in_nothing [] h o = omega arith
not_in_nothing (c ∷ l) h ([], post, e) = cc
not_in_nothing (c ∷ l) h (x ∷ pre, post, e) = cc

fresh : (c : ReadinessCondition) → LiteralFits c → Claims [] [] [] [] c none
fresh (log literal) (pos, fits) = record {
  not_out = not_in_nothing literal pos;
  not_err = not_in_nothing literal pos;
  out_covers = Covers-start literal;
  err_covers = Covers-start literal;
  bounded = fits;
}
fresh (tcp _) h = tt
fresh (http _) h = tt
fresh (file _) h = tt
fresh (port_lease _) h = tt

new_checks-AllClaim :
    (i : ℕ) (cs : List ReadinessCondition)
    → All LiteralFits cs
    → AllClaim [] [] [] [] (new_checks i cs)
unfolding new_checks
new_checks-AllClaim i [] h = tt
new_checks-AllClaim i (c ∷ cs) (h, hs) = (fresh c h, new_checks-AllClaim (i + 1) cs hs)

new_readiness-Inv :
    (cs : List ReadinessCondition) (timeout created : ℕ)
    → All LiteralFits cs
    → Inv [] [] new_tracker (new_readiness cs timeout created)
unfolding new_readiness
new_readiness-Inv [] timeout created h = record { sound = tt; waits = λ q. cc; done = λ q. cc }
new_readiness-Inv (c ∷ cs) timeout created h =
    let a = new_checks-AllClaim 0 (c ∷ cs) h in
    record {
      sound = AllClaim-AllSound [] [] [] [] (new_checks 0 (c ∷ cs)) a;
      waits = λ q. a;
      done = λ q. cc;
    }

-- What the record of a log check says of the output that the tracker was shown.
abbrev LogCorrect : (out err : Text) → ReadinessStatus → ReadinessCondition → Option ℕ → Type 0
LogCorrect out err status (log literal) r =
    (is_some r ≡ true → Occurs literal out ⊎ Occurs literal err)
    × (status ≡ pending → is_some r ≡ false → ¬ (Occurs literal out ⊎ Occurs literal err))
    × (status ≡ ready → is_some r ≡ true)
LogCorrect out err status _ r = status ≡ ready → is_some r ≡ true

-- The same of every check of a state.
abbrev pub IsCorrect : (out err : Text) → ReadinessState → Type 0
IsCorrect out err s = All (λ c. LogCorrect out err s.status c.condition c.ready_at_ms) s.checks

correct_check :
    (out err t u : Text) (status : ReadinessStatus) (c : ReadinessCondition) (r : Option ℕ)
    → Sound out err c r
    → (status ≡ pending → Claims out err t u c r)
    → (status ≡ ready → is_some r ≡ true)
    → LogCorrect out err status c r
correct_check out err t u status (log literal) none s w d =
    (λ h. cc, λ p q o. occurs_nowhere (w p) o, d)
  where
    occurs_nowhere : Waits out err t u literal → Occurs literal out ⊎ Occurs literal err → ⊥
    occurs_nowhere v (inl o) = v.not_out o
    occurs_nowhere v (inr o) = v.not_err o
correct_check out err t u status (log literal) (some at) s w d = (λ h. s, λ p q. absurd (cc), d)
correct_check out err t u status (tcp _) r s w d = d
correct_check out err t u status (http _) r s w d = d
correct_check out err t u status (file _) r s w d = d
correct_check out err t u status (port_lease _) r s w d = d

correct_checks :
    (out err t u : Text) (status : ReadinessStatus) (checks : List ReadinessCheck)
    → AllSound out err checks
    → (status ≡ pending → AllClaim out err t u checks)
    → (status ≡ ready → all (λ c. is_some c.ready_at_ms) checks ≡ true)
    → All (λ c. LogCorrect out err status c.condition c.ready_at_ms) checks
correct_checks out err t u status [] s w d = tt
correct_checks out err t u status (c ∷ cs) s w d = (
  correct_check out err t u status c.condition c.ready_at_ms s.0 (λ p. (w p).0)
      (λ q. (&&-eq_true _ _ (d q)).0),
  correct_checks out err t u status cs s.1 (λ p. (w p).1) (λ q. (&&-eq_true _ _ (d q)).1),
)

-- Take any list of conditions whose log literals have 1 to 1024 bytes, and any sequence of log
-- observations, polls and an exit, from a new tracker and a new readiness state. Then a log check is
-- recorded as ready only if its literal occurs in the observed bytes of stdout or of stderr; while
-- the readiness is pending, a log check that is not ready has its literal in neither, however the
-- bytes were cut into chunks; and when the readiness is ready, every check is.
pub run-IsCorrect :
    (conditions : List ReadinessCondition) (timeout created : ℕ) (events : List Event)
    → All LiteralFits conditions
    → IsCorrect
        (out_of events)
        (err_of events)
        (run events (new_tracker, new_readiness conditions timeout created)).1
run-IsCorrect conditions timeout created events h =
    let v =
      run-Inv events [] [] new_tracker (new_readiness conditions timeout created)
        (new_readiness-Inv conditions timeout created h) in
    correct_checks _ _ _ _ _ _ v.sound v.waits v.done
