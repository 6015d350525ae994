-- ===== src/Tests/Cli.antt =====
-- src/cli.rs at concrete values.
use procherd.Prelude.{
  ℕ, zero, suc, ◌+◌, Option, map, length, ap, ◌≡◌, ◌≢◌, ◌≤◌, ◌<◌, refl, true, false, none, List, [],
  ◌∷◌, ◌++◌, u64_max, arith,
}
use procherd.Prelude.Texts.{codes, format}
use procherd.Prelude.Numbers.{to_decimal}
use procherd.Error.{AppError, Kind, Result, ok, err, usage_error}
use procherd.Model.Status.{RunStatus, is_terminal, WaitCondition, ObservedStatus}
use procherd.Model.Documents.{RunView, StopRequest, StopResult, GcResult}
use procherd.Cli.Durations.{parse_duration, TimeUnit, parse_duration-to_decimal}
use procherd.Cli.Clock.{Spaced, until_some}
use procherd.Cli.Wait
use procherd.Cli.Stop
use procherd.Cli.Wait.{Reading, wait, wait_step, Holds, wait-Success}
use procherd.Cli.Stop.{StopEnv, stop}
use procherd.Cli.Wait.Returns.{wait-returns}
use procherd.Cli.Stop.Returns.{stop-returns}
use procherd.Cli.Gc.{Candidate, eligibility, gc_entry, gc, AllExplain, gc-AllExplain}
use procherd.Tests.Samples.{run_name, sample_state}

parse_duration-to_decimal_example :
    (7200000 ≤ u64_max → parse_duration (to_decimal 2 ++ codes "h") ≡ ok 7200000)
    × (u64_max < 7200000
        → parse_duration (to_decimal 2 ++ codes "h")
          ≡ err (usage_error (format "duration is too large" [])))
parse_duration-to_decimal_example = parse_duration-to_decimal 2 TimeUnit.hours (omega arith)

abbrev active_view : RunView
active_view = record {
  state = sample_state RunStatus.running;
  supervisor_active = true;
  observed_status = ObservedStatus.consistent;
}

abbrev ended_view : RunView
ended_view = record {
  state = sample_state RunStatus.exited;
  supervisor_active = false;
  observed_status = ObservedStatus.consistent;
}

-- The run ends between two readings.
wait-Success_example :
    (ended_view.observed_status ≡ ObservedStatus.consistent)
    × Holds WaitCondition.exit ended_view
    × (0 < 1000)
    × (1000 ≤ 86400000)
unfolding wait wait_step until_some is_terminal
wait-Success_example =
    wait-Success run_name WaitCondition.exit 1000 5 ((ok active_view, 5) ∷ (ok ended_view, 55) ∷ [])
      (record {
        schema_version = codes "procherd.wait.v1";
        condition = WaitCondition.exit;
        run = ended_view;
      })
      refl

abbrev sample_env : StopEnv
sample_env = record {
  first = ok active_view;
  idle_from = 0;
  idle = [];
  owner_token = ok (codes "token");
  now = 9;
  write = ok tt;
  asked_at = 10;
  readings = (ok active_view, 10) ∷ (ok ended_view, 35) ∷ [];
}

abbrev stopped_run : StopResult
stopped_run = record {
  schema_version = codes "procherd.stop.v1";
  already_terminal = false;
  run = ended_view;
}

abbrev candidates : List Candidate
candidates =
    record { run_id = run_name; view = ok ended_view; removal = ok tt }
    ∷ record { run_id = codes "run_2"; view = ok active_view; removal = ok tt }
    ∷ []

abbrev collected : GcResult
collected = record {
  schema_version = codes "procherd.gc.v1";
  execute = true;
  older_than_ms = 5;
  entries =
      record {
        run_id = run_name;
        status = RunStatus.exited;
        age_ms = 8;
        eligible = true;
        reason = "terminal_and_inactive";
        deleted = true;
      }
      ∷ record {
        run_id = codes "run_2";
        status = RunStatus.running;
        age_ms = 8;
        eligible = false;
        reason = "supervisor_active";
        deleted = false;
      }
      ∷ [];
}

gc-AllExplain_example :
    (cs : List Candidate) × (ok candidates ≡ ok cs) × AllExplain 5 true 10 cs collected.entries
unfolding gc gc_entry eligibility is_terminal
gc-AllExplain_example = gc-AllExplain 5 true 10 (ok candidates) collected refl

-- The timeout is 100 ms, and the run stays active.
abbrev hanging : List Reading
hanging = (ok active_view, 5) ∷ (ok active_view, 55) ∷ (ok active_view, 105) ∷ []

wait-returns_example :
    (wait run_name WaitCondition.exit 100 5 hanging ≢ ok none)
    × ((e : AppError)
        → wait run_name WaitCondition.exit 100 5 hanging ≡ err e
        → e.kind ≡ Kind.timeout
        → Wait.Returns.GivesUp run_name WaitCondition.exit 100 5 hanging)
wait-returns_example =
    wait-returns run_name WaitCondition.exit 100 5 hanging
      (omega arith, (omega arith, (omega arith, tt))) (omega arith)

-- Readings of a clock at equal distances.
abbrev every : ℕ → ℕ → ℕ → List ℕ
every gap from zero = []
every gap from (suc n) = from ∷ every gap (from + gap) n

every-Spaced :
    {X : Type 0} (clock : X → ℕ) (read : ℕ → X) (gap from n : ℕ)
    → ((t : ℕ) → clock (read t) ≡ t)
    → Spaced clock gap from (map read (every gap from n))
every-Spaced clock read gap from zero e = tt
every-Spaced clock read gap from (suc n) e =
    (rw (e from) (omega arith), rw (e from) (every-Spaced clock read gap (from + gap) n e))

every-length :
    {X : Type 0} (read : ℕ → X) (gap from n : ℕ) → length (map read (every gap from n)) ≡ n
every-length read gap from zero = refl
every-length read gap from (suc n) = ap suc (every-length read gap (from + gap) n)

abbrev late_env : StopEnv
late_env = record sample_env {
  idle = map (λ t. (t, ok active_view)) (every 10 0 501);
  readings = map (λ t. (ok active_view, t)) (every 25 10 205);
}

stop-returns_example :
    ((request : Option StopRequest) → stop late_env run_name 100 ≢ ok (request, none))
    × ((e : AppError)
        → stop late_env run_name 100 ≡ err e
        → e.kind ≡ Kind.timeout
        → Stop.Returns.GivesUp late_env run_name 100)
stop-returns_example =
    stop-returns late_env run_name 100
      (every-Spaced {X = ℕ × Result RunView} (λ x. x.0) (λ t. (t, ok active_view)) 10 0 501
        (λ t. refl))
      (let e = every-length {X = ℕ × Result RunView} (λ t. (t, ok active_view)) 10 0 501 in
        omega (arith, e))
      (every-Spaced {X = Reading} (λ x. x.1) (λ t. (ok active_view, t)) 25 10 205 (λ t. refl))
      (let e = every-length {X = Reading} (λ t. (ok active_view, t)) 25 10 205 in omega (arith, e))
