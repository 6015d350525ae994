-- ===== src/Cli/Start/Awaiting.antt =====
-- src/cli.rs: `start` from the creation of the run to its end. An iteration of the loop reads the
-- state and the activity, and the clock at one of two places.
pub mod Returns
use mathlib.Core.Path.{subst}
use procherd.Prelude.{
  ℕ, ◌+◌, leb, ◌≡◌, ◌≢◌, refl, sym, ◌∙◌, Bool, true, false, not, ◌&&◌, ◌||◌, Option, none, some,
  List, [], ◌∷◌, any, arith, Bool-cases, inl, inr, if◌then◌else◌,
}
use procherd.Prelude.Texts.{Text, codes, text, num, format}
use procherd.Error.{
  AppError, Result, ok, err, operational, timeout_error, supervisor_exit, start_failed,
  ok_injective, Kind,
}
use procherd.Model.Status.{RunStatus, is_terminal, is_live, consistent}
use procherd.Model.Run.{RunState, FailureInfo}
use procherd.Model.Documents.{RunView, new_view, StartResult, StopRequest}
use procherd.Cli.Stop.{stop_request}

-- What one iteration reads; `clock` is what `Instant::now()` gives, in milliseconds.
pub record StartTurn : Type 0 where
  pub observed : Result (RunState × Bool)
  pub clock : ℕ

-- The stop request that is written, and the result; `none` to go on.
pub record Step : Type 0 where
  pub request : Option StopRequest
  pub result : Result (Option StartResult)

abbrev go_on : Step
go_on = record { request = none; result = ok none }

abbrev fails : AppError → Step
fails e = record { request = none; result = err e }

abbrev pub is_starting : RunStatus → Bool
is_starting RunStatus.created = true
is_starting RunStatus.starting = true
is_starting _ = false

abbrev pub is_failed : RunStatus → Bool
is_failed RunStatus.failed = true
is_failed _ = false

-- `shown` prints the kind and the message of a failure.
module _ (shown : FailureInfo → Text) (run_id owner_token : Text) (startup_timeout : ℕ) where
  detail : Option FailureInfo → Text
  detail none = codes "the supervisor did not provide a diagnostic"
  detail (some f) = shown f

  pub exited_early : AppError
  exited_early =
      operational supervisor_exit
        (format "run {} supervisor exited during startup" (text run_id ∷ []))

  pub too_late : AppError
  too_late = timeout_error (
      format "run {} did not finish starting within {} ms" (text run_id ∷ num startup_timeout ∷ []))

  -- The branch for a run that is neither created nor starting.
  pub after_starting : Bool → RunState → Bool → Step
  unfolding detail exited_early
  after_starting passed state active =
      if is_terminal state.status && active
      then if passed
        then fails (
            timeout_error (
              format "run {} reached terminal state but its supervisor remained active"
                (text run_id ∷ [])))
        else go_on
      else if is_failed state.status
      then fails (
          operational start_failed
            (format "run {} failed to start: {}" (text run_id ∷ text (detail state.failure) ∷ [])))
      else if not active && not (is_terminal state.status)
      then fails exited_early
      else record {
        request = none;
        result = ok (
            some
              (record { schema_version = codes "procherd.start.v1"; run = new_view state active }));
      }

  pub still_starting : ℕ → Bool → Bool → Bool → Step
  unfolding exited_early too_late
  still_starting now passed active_seen active =
      if active_seen && not active
      then fails exited_early
      else if passed
      then record { request = some (stop_request run_id owner_token now 0); result = err too_late }
      else go_on

  -- `active_seen` includes this iteration's observation.
  pub start_step : ℕ → Bool → Bool → RunState → Bool → Step
  unfolding after_starting still_starting
  start_step now passed active_seen state active =
      if not (is_starting state.status)
      then after_starting passed state active
      else still_starting now passed active_seen active

  -- One iteration. `seen` says whether activity was observed before it.
  pub start_turn : ℕ → Bool → Bool → Result (RunState × Bool) → Step
  unfolding start_step
  start_turn now passed seen (err e) = fails e
  start_turn now passed seen (ok (state, active)) =
      start_step now passed (seen || active) state active

  pub seen_after : Bool → Result (RunState × Bool) → Bool
  seen_after seen (err e) = seen
  seen_after seen (ok (state, active)) = seen || active

  pub start_next : Result (Option StartResult) → Step → Step → Step
  start_next (ok none) this rest = rest
  start_next (ok (some r)) this rest = this
  start_next (err e) this rest = this

  -- The loop over the readings of its iterations; `started` is the clock before it.
  unfoldable pub start_loop : ℕ → ℕ → Bool → List StartTurn → Step
  unfolding start_turn seen_after start_next
  start_loop started now seen [] = go_on
  start_loop started now seen (t ∷ ts) =
      let this = start_turn now (leb (started + startup_timeout) t.clock) seen t.observed in
      start_next this.result this (start_loop started now (seen_after seen t.observed) ts)

  -- The view of a start that succeeds.
  abbrev pub IsStarted : RunView → Type 0
  IsStarted v =
      (is_starting v.state.status ≡ false)
      × (is_failed v.state.status ≡ false)
      × (is_terminal v.state.status ≡ not v.supervisor_active)
      × (v.observed_status ≡ consistent)

  -- A stop request that goes with an error.
  abbrev pub Requested : Option StopRequest → AppError → Type 0
  Requested none e = Unit
  Requested (some q) e =
      (q.run_id ≡ run_id)
      × (q.owner_token ≡ owner_token)
      × (q.grace_ms ≡ 0)
      × (e.kind ≡ Kind.timeout)

  -- What the end of an iteration, or of the loop, says.
  abbrev pub Outcome : Step → Result (Option StartResult) → Type 0
  Outcome s (ok none) = s.request ≡ none
  Outcome s (ok (some r)) = IsStarted r.run × (s.request ≡ none)
  Outcome s (err e) = Requested s.request e

  abbrev pub GoodOutcome : Step → Type 0
  GoodOutcome s = Outcome s s.result

  fails-Outcome : (e : AppError) → GoodOutcome (fails e)
  fails-Outcome e = tt

  asked-Outcome :
      (now : ℕ) (e : AppError)
      → e.kind ≡ Kind.timeout
      → GoodOutcome
          (record { request = some (stop_request run_id owner_token now 0); result = err e })
  unfolding stop_request
  asked-Outcome now e k = (refl, refl, refl, k)

  still_starting-Outcome :
      (now : ℕ) (passed seen active : Bool) → GoodOutcome (still_starting now passed seen active)
  unfolding still_starting too_late timeout_error
  still_starting-Outcome now passed true false = tt
  still_starting-Outcome now true true true = asked-Outcome now too_late refl
  still_starting-Outcome now false true true = refl
  still_starting-Outcome now true false active = asked-Outcome now too_late refl
  still_starting-Outcome now false false active = refl

  not_orphaned :
      (state : RunState) (active : Bool)
      → is_terminal state.status ≡ not active
      → (new_view state active).observed_status ≡ consistent
  unfolding new_view is_terminal is_live
  not_orphaned state active h = ground arith

  after_starting-Outcome :
      (passed : Bool) (state : RunState) (active : Bool)
      → is_starting state.status ≡ false
      → GoodOutcome (after_starting passed state active)
  unfolding after_starting new_view
  after_starting-Outcome passed state active n =
      go (is_terminal state.status) (is_failed state.status) passed active refl refl
    where
      go :
          (t f passed active : Bool)
          → is_terminal state.status ≡ t
          → is_failed state.status ≡ f
          → GoodOutcome (after_starting passed state active)
      go true f true true e k = rw e tt
      go true f false true e k = rw e refl
      go true true passed false e k = rw (e, k) tt
      go true false passed false e k = rw (e, k) ((n, k, e, not_orphaned state false e), refl)
      go false true passed active e k = rw (e, k) tt
      go false false passed true e k = rw (e, k) ((n, k, e, not_orphaned state true e), refl)
      go false false passed false e k = rw (e, k) tt

  start_step-Outcome :
      (now : ℕ) (passed seen : Bool) (state : RunState) (active : Bool)
      → GoodOutcome (start_step now passed seen state active)
  unfolding start_step
  start_step-Outcome now passed seen state active = elim (Bool-cases (is_starting state.status)) [
    | inl e ↦ rw e (still_starting-Outcome now passed seen active)
    | inr e ↦ rw e (after_starting-Outcome passed state active e)
  ]

  start_turn-Outcome :
      (now : ℕ) (passed seen : Bool) (o : Result (RunState × Bool))
      → GoodOutcome (start_turn now passed seen o)
  unfolding start_turn
  start_turn-Outcome now passed seen (err e) = fails-Outcome e
  start_turn-Outcome now passed seen (ok (state, active)) =
      start_step-Outcome now passed (seen || active) state active

  start_next-Outcome :
      (r : Result (Option StartResult)) (this rest : Step)
      → Outcome this r
      → this.result ≡ r
      → GoodOutcome rest
      → GoodOutcome (start_next r this rest)
  unfolding start_next
  start_next-Outcome (ok none) this rest h e k = k
  start_next-Outcome (ok (some r)) this rest h e k = rw e h
  start_next-Outcome (err x) this rest h e k = rw e h

  -- The loop of `start`, whatever its iterations read. If it succeeds, then the run is neither created
  -- nor starting nor failed, it is terminal exactly when its supervisor is not active, it is not
  -- orphaned, and no stop was requested. A stop request is made only with an error of the kind timeout,
  -- and it is for this run, with its token and no grace.
  pub start_loop-Outcome :
      (started now : ℕ) (seen : Bool) (ts : List StartTurn)
      → GoodOutcome (start_loop started now seen ts)
  unfolding start_loop
  start_loop-Outcome started now seen [] = refl
  start_loop-Outcome started now seen (t ∷ ts) =
      let passed = leb (started + startup_timeout) t.clock in
      start_next-Outcome _ (start_turn now passed seen t.observed) _
        (start_turn-Outcome now passed seen t.observed) refl
        (start_loop-Outcome started now (seen_after seen t.observed) ts)
