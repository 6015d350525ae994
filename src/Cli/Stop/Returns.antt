-- ===== src/Cli/Stop/Returns.antt =====
-- src/cli.rs: when `stop` returns, and when it gives up. Proofs.
use procherd.Prelude.{
  ℕ, ◌+◌, ◌*◌, ◌≤◌, ◌≡◌, ◌≢◌, refl, sym, ap, ◌∙◌, Bool, true, false, Option, none, some, List, [],
  ◌∷◌, ◌++◌, any, Bool-cases, inl, inr, ◌||◌, ltb, leb, not, ◌&&◌, ◌⊎◌, length, arith,
}
use procherd.Prelude.Texts.{Text}
use procherd.Error.{
  AppError, Kind, Result, ok, err, >>=-eq-ok, >>=-eq-err, ok_injective, refuse_if, refuse_if-ok,
  refuse_if-err, usage_error, operational,
}
use procherd.Model.Status.{is_terminal}
use procherd.Model.Documents.{RunView, StopRequest, StopResult}
use procherd.Cli.Clock.{
  Spaced, Spaced-reached, is_timeout, is_timeout-err, until_some, until_some-returns,
  until_some-err,
}
use procherd.Cli.Stop.{
  Reading, StopEnv, await_inactive, stop_next, stop_step, already_ended, request_and_wait, stop,
  none≢some,
}

stop_next-returns : (run_id : Text) (view : RunView) → stop_next run_id true view ≢ ok none
unfolding stop_next
stop_next-returns run_id view h =
    elim (Bool-cases (is_terminal view.state.status && not view.supervisor_active)) [
      | inl e ↦ none≢some (sym (ok_injective (some _) none (rw e at h)))
      | inr e ↦ elim (Bool-cases view.supervisor_active) [
        | inl a ↦ cc (rw (e, a) at h)
        | inr a ↦ cc (rw (e, a) at h)
      ]
    ]

stop_step-returns :
    (run_id : Text) (deadline : ℕ) (x : Reading)
    → leb deadline x.1 ≡ true
    → stop_step run_id deadline x ≢ ok none
unfolding stop_step
stop_step-returns run_id deadline (read, now) late h =
    let (view, _, h) = >>=-eq-ok read _ h in stop_next-returns run_id view (rw late at h)

stop_next-late :
    (run_id : Text) (late : Bool) (view : RunView) (e : AppError)
    → stop_next run_id late view ≡ err e
    → e.kind ≡ Kind.timeout
    → late ≡ true
unfolding stop_next operational
stop_next-late run_id true view e h k = refl
stop_next-late run_id false view e h k =
    elim (Bool-cases (is_terminal view.state.status && not view.supervisor_active)) [
      | inl t ↦ cc (rw t at h)
      | inr t ↦ elim (Bool-cases view.supervisor_active) [
        | inl a ↦ cc (rw (t, a) at h)
        | inr a ↦ cc (rw (t, a) at h)
      ]
    ]

stop_step-late :
    (run_id : Text) (deadline : ℕ) (x : Reading) (e : AppError)
    → stop_step run_id deadline x ≡ err e
    → e.kind ≡ Kind.timeout
    → (is_timeout x.0 || leb deadline x.1) ≡ true
unfolding stop_step
stop_step-late run_id deadline (read, now) e h k = elim (>>=-eq-err read _ h) [
  | inl r ↦ rw (is_timeout-err read e r k) refl
  | inr (view, _, h) ↦
      let late = stop_next-late run_id (leb deadline now) view e h k in ground arith
]

await_inactive-returns :
    (run_id : Text) (deadline : ℕ) (view : RunView) (readings : List (ℕ × Result RunView))
    → any (λ x. leb deadline x.0) readings ≡ true
    → await_inactive run_id deadline view readings ≢ ok none
unfolding await_inactive
await_inactive-returns run_id deadline view [] late h = cc
await_inactive-returns run_id deadline view ((now, read) ∷ rest) late h =
    elim (Bool-cases view.supervisor_active) [
      | inr a ↦ none≢some (sym (ok_injective (some _) none (rw a at h)))
      | inl a ↦
          let (_, p, k) = >>=-eq-ok (refuse_if (leb deadline now) _) _ (rw a at h) in
          let (view', _, k) = >>=-eq-ok read _ k in
          await_inactive-returns run_id deadline view' rest
            (rw (refuse_if-ok (leb deadline now) _ p) at late) k
    ]

-- The iteration in which the wait for the supervisor fails.
abbrev pub IdleFails : Text → ℕ → RunView → List (ℕ × Result RunView) → Type 0
IdleFails run_id deadline view readings =
    (before : List (ℕ × Result RunView)) × (x : ℕ × Result RunView) × (after : List
      (ℕ × Result RunView))
    × (readings ≡ before ++ x ∷ after)
    × (await_inactive run_id deadline view before ≡ ok none)
    × ((is_timeout x.1 || leb deadline x.0) ≡ true)

refuse_if-late : (b : Bool) (e f : AppError) → refuse_if b e ≡ err f → b ≡ true
refuse_if-late true e f h = refl
refuse_if-late false e f h = cc

or_true : (b : Bool) → (b || true) ≡ true
or_true true = refl
or_true false = refl

await_inactive-late :
    (run_id : Text) (deadline : ℕ) (view : RunView) (readings : List (ℕ × Result RunView))
    (e : AppError)
    → await_inactive run_id deadline view readings ≡ err e
    → e.kind ≡ Kind.timeout
    → IdleFails run_id deadline view readings
unfolding await_inactive
await_inactive-late run_id deadline view [] e h k = elim (Bool-cases view.supervisor_active) [
  | inl a ↦ cc (rw a at h)
  | inr a ↦ cc (rw a at h)
]
await_inactive-late run_id deadline view ((now, read) ∷ rest) e h k =
    elim (Bool-cases view.supervisor_active) [
      | inr a ↦ cc (rw a at h)
      | inl a ↦ elim (>>=-eq-err (refuse_if (leb deadline now) _) _ (rw a at h)) [
        | inl r ↦ (
          [],
          (now, read),
          rest,
          refl,
          rw a refl,
          rw (refuse_if-late (leb deadline now) _ e r) (or_true (is_timeout read)),
        )
        | inr (_, p, h) ↦ elim (>>=-eq-err read _ h) [
          | inl r ↦ ([], (now, read), rest, refl, rw a refl, rw (is_timeout-err read e r k) refl)
          | inr (view', r, h) ↦
              let (before, x, after, q, n, l) =
                await_inactive-late run_id deadline view' rest e h k in
              ((now, read) ∷ before, x, after, ap (λ r. (now, read) ∷ r) q, rw (a, p, r) n, l)
        ]
      ]
    ]

-- The iteration in which the loop that follows the request fails.
abbrev pub RequestFails : Text → ℕ → List Reading → Type 0
RequestFails run_id deadline readings =
    (before : List Reading) × (x : Reading) × (after : List Reading) × (readings
      ≡ before ++ x ∷ after)
    × (until_some (stop_step run_id deadline) before ≡ ok none)
    × ((is_timeout x.0 || leb deadline x.1) ≡ true)

-- What an error of the kind timeout says. The deadline of the first loop is five seconds after its
-- beginning, that of the second one five seconds after the grace period.
abbrev pub GivesUp : StopEnv → Text → ℕ → Type 0
GivesUp env run_id grace_ms =
    ((is_timeout env.first || is_timeout env.owner_token || is_timeout env.write) ≡ true)
    ⊎ ((view : RunView) × (env.first ≡ ok view)
        × IdleFails run_id (env.idle_from + 5000) view env.idle)
    ⊎ RequestFails run_id (env.asked_at + grace_ms + 5000) env.readings

-- A stop whose clock does not go back, with 10 ms between the iterations of the wait for a supervisor
-- and 25 ms between those of the wait after a request, returns a result or an error within one more
-- iterations than there are such intervals in five seconds, or in the grace period and five seconds,
-- whatever they read. It gives up with a timeout only in an iteration that reads the clock after
-- that time, or when something that it reads or writes fails with a timeout.
pub stop-returns :
    (env : StopEnv) (run_id : Text) (grace_ms : ℕ)
    → Spaced (λ (x : ℕ × Result RunView). x.0) 10 env.idle_from env.idle
    → 5010 ≤ 10 * length env.idle
    → Spaced (λ (x : Reading). x.1) 25 env.asked_at env.readings
    → grace_ms + 5025 ≤ 25 * length env.readings
    → ((request : Option StopRequest) → stop env run_id grace_ms ≢ ok (request, none))
      × ((e : AppError)
          → stop env run_id grace_ms ≡ err e
          → e.kind ≡ Kind.timeout
          → GivesUp env run_id grace_ms)
unfolding stop already_ended request_and_wait usage_error operational
stop-returns env run_id grace_ms si li sr lr = (
  λ request h.
      let (_, _, h) = >>=-eq-ok (refuse_if (ltb 300000 grace_ms) _) _ h in
      let (view, _, h) = >>=-eq-ok env.first _ h in
      elim (Bool-cases (is_terminal view.state.status)) [
        | inl t ↦ ended request view (rw t at h)
        | inr t ↦ requested request view (rw t at h)
      ],
  λ e h k. elim (>>=-eq-err (refuse_if (ltb 300000 grace_ms) _) _ h) [
    | inl r ↦ cc (refuse_if-err _ _ e r)
    | inr (_, _, h) ↦ elim (>>=-eq-err env.first _ h) [
      | inl r ↦ let t = is_timeout-err env.first e r k in inl (ground arith)
      | inr (view, r, h) ↦ elim (Bool-cases (is_terminal view.state.status)) [
        | inl t ↦ inr (inl (view, r, idle_late view e (rw t at h) k))
        | inr t ↦ request_late view e (rw t at h) k
      ]
    ]
  ],
)
  where
    step : Reading → Result (Option StopResult)
    step = stop_step run_id (env.asked_at + grace_ms + 5000)

    ended :
        (request : Option StopRequest) (view : RunView)
        → already_ended env run_id view ≢ ok (request, none)
    ended request view h =
        let (x, e, h) =
          >>=-eq-ok (await_inactive run_id (env.idle_from + 5000) view env.idle) _ h in
        await_inactive-returns run_id (env.idle_from + 5000) view env.idle
          (Spaced-reached (λ (x : ℕ × Result RunView). x.0) 10 (env.idle_from + 5000) env.idle_from
            env.idle si (omega arith) (omega arith))
          (e ∙ ap (λ p. ok (p.1)) (ok_injective (none, x) (request, none) h))

    requested :
        (request : Option StopRequest) (view : RunView)
        → request_and_wait env run_id grace_ms view ≢ ok (request, none)
    requested request view h =
        let (_, _, h) = >>=-eq-ok (refuse_if (not view.supervisor_active) _) _ h in
        let (token, _, h) = >>=-eq-ok env.owner_token _ h in
        let (_, _, h) = >>=-eq-ok env.write _ h in
        let (x, e, h) = >>=-eq-ok (until_some step env.readings) _ h in
        until_some-returns step (λ x. leb (env.asked_at + grace_ms + 5000) x.1)
          (stop_step-returns run_id (env.asked_at + grace_ms + 5000)) env.readings
          (Spaced-reached (λ (x : Reading). x.1) 25 (env.asked_at + grace_ms + 5000) env.asked_at
            env.readings sr (omega arith) (omega arith))
          (e ∙ ap (λ p. ok (p.1)) (ok_injective (some _, x) (request, none) h))

    idle_late :
        (view : RunView) (e : AppError)
        → already_ended env run_id view ≡ err e
        → e.kind ≡ Kind.timeout
        → IdleFails run_id (env.idle_from + 5000) view env.idle
    idle_late view e h k =
        elim (>>=-eq-err (await_inactive run_id (env.idle_from + 5000) view env.idle) _ h) [
          | inl r ↦ await_inactive-late run_id (env.idle_from + 5000) view env.idle e r k
          | inr (_, _, h) ↦ cc
        ]

    request_late :
        (view : RunView) (e : AppError)
        → request_and_wait env run_id grace_ms view ≡ err e
        → e.kind ≡ Kind.timeout
        → GivesUp env run_id grace_ms
    request_late view e h k = elim (>>=-eq-err (refuse_if (not view.supervisor_active) _) _ h) [
      | inl r ↦ cc (refuse_if-err _ _ e r)
      | inr (_, _, h) ↦ elim (>>=-eq-err env.owner_token _ h) [
        | inl r ↦ let t = is_timeout-err env.owner_token e r k in inl (ground arith)
        | inr (_, _, h) ↦ elim (>>=-eq-err env.write _ h) [
          | inl r ↦ let t = is_timeout-err env.write e r k in inl (ground arith)
          | inr (_, _, h) ↦ elim (>>=-eq-err (until_some step env.readings) _ h) [
            | inl r ↦
                let (before, x, after, q, n, f) = until_some-err step env.readings e r in
                inr (
                  inr (
                    before,
                    x,
                    after,
                    q,
                    n,
                    stop_step-late run_id (env.asked_at + grace_ms + 5000) x e f k,
                  ))
            | inr (_, _, h) ↦ cc
          ]
        ]
      ]
    ]
