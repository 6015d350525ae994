-- ===== src/Readiness/Tracker.antt =====
-- src/readiness.rs: `ReadinessTracker`. Readings of the clocks and the results of the network and
-- file probes are arguments; an `Instant` is a number of nanoseconds.
use procherd.Prelude.{
  ℕ, zero, suc, ◌+◌, ◌-◌, ◌%◌, String, min, max, Bool, true, false, ◌&&◌, ◌||◌, Option, none, some,
  List, [], ◌∷◌, ◌++◌, length, is_empty, all, drop, get_elem?, ltb, leb, is_some, saturating_add,
  if◌then◌else◌,
}
use procherd.Prelude.Texts.{Text, Message, num, format}
use procherd.Prelude.Occurs.{any_window, windows}
use procherd.Model.Status.{LogStream, stdout, stderr}
use procherd.Model.Readiness.{
  ReadinessStatus, pending, ready, timed_out, failed, ReadinessCondition, tcp, http, file, log,
  port_lease, ReadinessCheck, ReadinessState,
}

abbrev pub max_log_literal_bytes : ℕ
max_log_literal_bytes = 1024

-- 50 ms
abbrev pub probe_interval : ℕ
probe_interval = 50000000

pub record ReadinessTracker : Type 0 where
  pub last_probe : Option ℕ
  pub next_probe_index : ℕ
  pub stdout_tail : Text
  pub stderr_tail : Text

abbrev pub new_tracker : ReadinessTracker
new_tracker = record { last_probe = none; next_probe_index = 0; stdout_tail = []; stderr_tail = [] }

unfoldable pub contains_bytes : Text → Text → Bool
unfolding windows
contains_bytes haystack needle = is_empty needle || any_window haystack needle

abbrev pub is_pending : ReadinessStatus → Bool
is_pending pending = true
is_pending _ = false

-- `finish_at` is the reading of the clock.
unfoldable pub finish_if_ready : ℕ → ReadinessState → ReadinessState × Bool
finish_if_ready finish_at state =
    if is_pending state.status && all (λ c. is_some c.ready_at_ms) state.checks
    then (record state { status = ready; ready_at_ms = some finish_at }, true)
    else (state, false)

-- The result of `stream_name` stands in the format literal.
abbrev log_evidence : LogStream → String
log_evidence stdout = "stdout contained the configured literal at timestamp {}"
log_evidence stderr = "stderr contained the configured literal at timestamp {}"

unfoldable pub mark_ready : ℕ → Message → ReadinessCheck → ReadinessCheck
mark_ready at e check = record check { ready_at_ms = some at; evidence = some e }

-- The literal that a check still waits for.
abbrev pub waiting : ReadinessCondition → Option ℕ → Option Text
waiting (log literal) none = some literal
waiting _ _ = none

abbrev pub hit : Text → Option Text → Bool
hit searchable none = false
hit searchable (some literal) = contains_bytes searchable literal

-- One pass of the loop over the checks; `clock i` is the reading at the i-th check.
unfoldable pub observe_checks :
    (ℕ → ℕ) → ℕ → LogStream → Text → List ReadinessCheck → List ReadinessCheck × Bool
unfolding mark_ready contains_bytes
observe_checks clock i stream searchable [] = ([], false)
observe_checks clock i stream searchable (c ∷ cs) =
    let (rest, changed) = observe_checks clock (i + 1) stream searchable cs in
    if hit searchable (waiting c.condition c.ready_at_ms)
    then (mark_ready (clock i) (format (log_evidence stream) (num (clock i) ∷ [])) c ∷ rest, true)
    else (c ∷ rest, changed)

abbrev pub tail_need : Option Text → ℕ
tail_need none = 0
tail_need (some literal) = length literal - 1

-- The longest end of a stream that a waiting literal may begin in.
unfoldable pub longest_need : List ReadinessCheck → ℕ
longest_need [] = 0
longest_need (c ∷ cs) = max (tail_need (waiting c.condition c.ready_at_ms)) (longest_need cs)

unfoldable pub max_tail : List ReadinessCheck → ℕ
unfolding longest_need
max_tail checks = min (longest_need checks) (max_log_literal_bytes - 1)

abbrev pub tail_of : LogStream → ReadinessTracker → Text
tail_of stdout t = t.stdout_tail
tail_of stderr t = t.stderr_tail

abbrev pub with_tail : LogStream → Text → ReadinessTracker → ReadinessTracker
with_tail stdout s t = record t { stdout_tail = s }
with_tail stderr s t = record t { stderr_tail = s }

-- `searchable[searchable.len() - keep..]`
unfoldable pub keep_tail : ℕ → Text → Text
keep_tail most searchable =
    let keep = min (length searchable) most in drop (length searchable - keep) searchable

-- `clock` and `finish_at` are the readings of `now_ms` in the loop and in `finish_if_ready`.
unfoldable pub observe_log :
    (ℕ → ℕ)
    → ℕ
    → LogStream
    → Text
    → ReadinessTracker
    → ReadinessState
    → ReadinessTracker × ReadinessState × Bool
observe_log clock finish_at stream bytes tracker state =
    let searchable = tail_of stream tracker ++ bytes in
    let (checks, changed) = observe_checks clock 0 stream searchable state.checks in
    let tail = keep_tail (max_tail checks) searchable in
    let (state', completed) = finish_if_ready finish_at (record state { checks = checks }) in
    if is_pending state.status
    then (with_tail stream tail tracker, state', changed || completed)
    else (tracker, state, false)

unfoldable pub process_exited : ReadinessState → ReadinessState × Bool
process_exited state =
    if is_pending state.status
    then (
      record state { status = failed; failure_reason = some "process_exited_before_ready" },
      true,
    )
    else (state, false)

-- A check that `poll` probes: not yet ready, and neither a log literal nor an unresolved lease.
abbrev pub is_external : ReadinessCondition → Option ℕ → Bool
is_external (tcp _) none = true
is_external (http _) none = true
is_external (file _) none = true
is_external _ _ = false

abbrev pub external_at : List ReadinessCheck → ℕ → Bool
external_at checks i = elim (get_elem? checks i) [
  | none ↦ false
  | some c ↦ is_external c.condition c.ready_at_ms
]

-- `find` over the offsets from `offset`, of which `n` are left.
unfoldable pub find_external : ℕ → ℕ → ℕ → ℕ → List ReadinessCheck → Option ℕ
find_external zero offset start count checks = none
find_external (suc n) offset start count checks =
    let rest = find_external n (offset + 1) start count checks in
    let index = (start + offset) % count in if external_at checks index then some index else rest

unfoldable pub next_external_check : ReadinessTracker → ReadinessState → Option ℕ
unfolding find_external
next_external_check tracker state =
    let count = length state.checks in
    find_external count 0 tracker.next_probe_index count state.checks

-- What `poll` reads from outside.
pub record PollEnv : Type 0 where
  pub now : ℕ  -- `now_ms` at the deadline
  pub instant : ℕ  -- the `Instant` of the interval's test
  pub probe_instant : ℕ  -- the `Instant` that is stored
  pub observed_at : ℕ  -- `now_ms` after a successful probe
  pub finish_at : ℕ
  pub probe_tcp : Text → Option Message
  pub probe_http : Text → Option Message
  pub probe_file : Text → Option Message

abbrev pub probe : PollEnv → ReadinessCondition → Option Message
probe env (tcp address) = env.probe_tcp address
probe env (http url) = env.probe_http url
probe env (file path) = env.probe_file path
probe env (log _) = none
probe env (port_lease _) = none

abbrev pub probe_at : PollEnv → List ReadinessCheck → ℕ → Option Message
probe_at env checks i = elim (get_elem? checks i) [ none ↦ none | some c ↦ probe env c.condition ]

unfoldable pub mark_at : ℕ → Message → ℕ → List ReadinessCheck → List ReadinessCheck
unfolding mark_ready
mark_at at e i [] = []
mark_at at e zero (c ∷ cs) = mark_ready at e c ∷ cs
mark_at at e (suc i) (c ∷ cs) = c ∷ mark_at at e i cs

abbrev pub deadline_passed : ℕ → Option ℕ → Bool
deadline_passed now none = false
deadline_passed now (some deadline) = leb deadline now

abbrev pub too_soon : ℕ → Option ℕ → Bool
too_soon instant none = false
too_soon instant (some last) = ltb (instant - last) probe_interval

-- The probe of the check at `index`.
unfoldable pub probe_check :
    PollEnv → ℕ → ReadinessTracker → ReadinessState → ReadinessTracker × ReadinessState × Bool
probe_check env index tracker state =
    let tracker' = record tracker { next_probe_index = saturating_add index 1 } in
    elim (probe_at env state.checks index) [
      | none ↦ (tracker', state, false)
      | some e ↦ (
        tracker',
        (finish_if_ready env.finish_at
            (record state { checks = mark_at env.observed_at e index state.checks })).0,
        true,
      )
    ]

unfoldable pub poll :
    PollEnv → ReadinessTracker → ReadinessState → ReadinessTracker × ReadinessState × Bool
poll env tracker state =
    if is_pending state.status
    then if deadline_passed env.now state.deadline_at_ms
      then (
        tracker,
        record state { status = timed_out; failure_reason = some "readiness_timeout" },
        true,
      )
      else if too_soon env.instant tracker.last_probe
      then (tracker, state, false)
      else (let tracker' = record tracker { last_probe = some env.probe_instant } in
          elim (next_external_check tracker' state) [
            | none ↦
                let (state', completed) = finish_if_ready env.finish_at state in
                (tracker', state', completed)
            | some index ↦ probe_check env index tracker' state
          ])
    else (tracker, state, false)
