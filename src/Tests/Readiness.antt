-- ===== src/Tests/Readiness.antt =====
-- src/readiness.rs at concrete values.
use procherd.Prelude.{
  ℕ, zero, ◌+◌, ◌≡◌, ◌≤◌, ◌<◌, refl, Bool, true, false, Option, none, some, List, [], ◌∷◌, All,
  arith, inl, length,
}
use procherd.Prelude.Texts.{Text, codes, text_eq, strip_prefix}
use procherd.Prelude.Numbers.{parse_uint}
use procherd.Prelude.Paths.{has_parent_dir}
use procherd.Model.Status.{stdout, stderr}
use procherd.Model.Readiness.{
  ReadinessCondition, tcp, file, log, port_lease, ReadinessState, pending, new_readiness,
}
use procherd.Readiness.Tracker.{new_tracker, next_external_check, external_at}
use procherd.Readiness.Runs.{Event, observe, exited, IsCorrect, run, run-IsCorrect}
use procherd.Readiness.Probing.{next_external_check_lem}
use procherd.Readiness.Conditions.{
  Net, NetLaws, local_socket_addresses, tcp_conditions, http_conditions, file_conditions,
  readiness_path, log_conditions, port_conditions, build_conditions,
}
use procherd.Readiness.Conditions.Loopback.{IsLocal, build_conditions-IsLocal}

abbrev two_conditions : List ReadinessCondition
two_conditions = log (codes "ready") ∷ tcp (codes "localhost:80") ∷ []

-- The literal is cut across two chunks.
abbrev cut_events : List Event
cut_events =
    observe (λ i. i) 5 stdout (codes "not rea")
    ∷ observe (λ i. i) 6 stderr (codes "dy")
    ∷ observe (λ i. i) 7 stdout (codes "dy yet")
    ∷ exited
    ∷ []

run-IsCorrect_example :
    IsCorrect
      (codes "not ready yet")
      (codes "dy")
      (run cut_events (new_tracker, new_readiness two_conditions 1000 0)).1
run-IsCorrect_example =
    run-IsCorrect two_conditions 1000 0 cut_events ((omega arith, omega arith), (tt, tt))

abbrev both_pending : ReadinessState
both_pending = record {
  status = pending;
  timeout_ms = 1000;
  deadline_at_ms = some 1000;
  ready_at_ms = none;
  failure_reason = none;
  checks =
      record {
        id = procherd.Prelude.Texts.format "ready-1" [];
        condition = log (codes "x");
        ready_at_ms = none;
        evidence = none;
      }
      ∷ record {
        id = procherd.Prelude.Texts.format "ready-2" [];
        condition = tcp (codes "localhost:80");
        ready_at_ms = none;
        evidence = none;
      }
      ∷ [];
}

next_external_check_lem_example :
    ((i : ℕ)
      → next_external_check new_tracker both_pending ≡ some i
      → external_at both_pending.checks i ≡ true)
    × (next_external_check new_tracker both_pending ≡ none
        → (j : ℕ) → j < length both_pending.checks
        → external_at both_pending.checks j ≡ false)
next_external_check_lem_example = next_external_check_lem new_tracker both_pending

-- One address, of which both names of localhost are.
abbrev pub one_host : Net
one_host = record {
  IpAddr = Unit;
  is_loopback = λ _. true;
  localhost_v4 = tt;
  localhost_v6 = tt;
  parse_socket_addr = λ _. none;
  parse_ip = λ _. none;
  parse_url = λ s. inl (codes "relative URL without a base");
}

abbrev one_host_laws : NetLaws one_host
one_host_laws = record { v4_loopback = refl; v6_loopback = refl }

build_conditions-IsLocal_example :
    All (IsLocal one_host one_host_laws (codes "web" ∷ [])) (
      tcp (codes "localhost:80")
      ∷ file (codes "/srv/up")
      ∷ log (codes "up")
      ∷ port_lease (codes "web")
      ∷ [])
    × (length {A = Text} (codes "a" ∷ codes "b" ∷ codes "c" ∷ codes "d" ∷ []) ≡ 4)
    × (4 ≤ 16)
unfolding build_conditions tcp_conditions http_conditions file_conditions readiness_path
    log_conditions port_conditions local_socket_addresses strip_prefix parse_uint text_eq
    has_parent_dir
build_conditions-IsLocal_example =
    build_conditions-IsLocal one_host one_host_laws (codes "localhost:80" ∷ []) []
      (codes "/srv/up" ∷ []) (codes "up" ∷ []) (codes "web" ∷ []) (codes "web" ∷ []) (codes "/srv")
      (tcp (codes "localhost:80")
        ∷ file (codes "/srv/up")
        ∷ log (codes "up")
        ∷ port_lease (codes "web")
        ∷ [])
      refl refl
