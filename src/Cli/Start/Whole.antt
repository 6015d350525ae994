-- ===== src/Cli/Start/Whole.antt =====
-- src/cli.rs: `start` as a whole: the plan, the creation of the run, the launch of its supervisor and
-- the loop.
use procherd.Prelude.{ℕ, ◌≤◌, ◌≡◌, true, false, Option, none, some, List, [], ◌∷◌, is_some}
use procherd.Prelude.Texts.{Text, text, format}
use procherd.Error.{
  AppError, kind_name, WriteError, Result, ok, err, ◌>>=◌, operational, supervisor_launch,
}
use procherd.Model.Status.{RunStatus, supervisor_failed}
use procherd.Model.Run.{RunState, FailureInfo}
use procherd.Logs.Writer.{Sha256}
use procherd.Readiness.Conditions.{Net}
use procherd.Store.Files.{document_limit}
use procherd.Store.RunId.{Ulid}
use procherd.Store.Runs.{Store, read_state, supervisor_active}
use procherd.Store.Update.{replace_state}
use procherd.Store.Creation.{create_run}
use procherd.Cli.Start.{StartCommand, PlanEnv, Plan, plan}
use procherd.Cli.Start.Awaiting.{Step, StartTurn, start_loop}

-- `failure` and the lengths are those of `create_run`; `launch` is the result of
-- `supervisor::launch`; `rewrite` is the error of the write after a failed launch, which the code
-- ignores, and `failed_len` the length of that document; `started_at` is the clock before the loop;
-- `shown_error` prints an error.
pub record StartEnv (u : Ulid) : Type 0 where
  pub planning : PlanEnv u
  pub failure : ℕ → Option WriteError
  pub state_len : ℕ
  pub spec_len : ℕ
  pub launch : Result (Unit {0})
  pub rewrite : Option Text
  pub failed_len : ℕ
  pub started_at : ℕ
  pub shown : FailureInfo → Text
  pub shown_error : AppError → Text
  pub failed_at : ℕ
  pub exited_at : ℕ
  pub requested_at : ℕ
  pub turns : List StartTurn

-- The store before the loop, and the end of the loop.
pub record Started : Type 0 where
  pub store : Store
  pub step : Step

module _ (n : Net) (u : Ulid) (sha : Sha256) where
  launch_failed : StartEnv u → AppError → RunState → RunState
  launch_failed env e s = record s {
    status = RunStatus.failed;
    updated_at_ms = env.failed_at;
    exit = some (record {
      code = none;
      signal = none;
      reason = supervisor_failed;
      finished_at_ms = env.exited_at;
    });
    failure = some (record { kind = kind_name e.kind; message = e.message });
  }

  after_launch : StartEnv u → Plan → Store → Result (Unit {0}) → Started
  unfolding launch_failed replace_state
  after_launch env p store (err e) = record {
    store = replace_state u env.rewrite env.failed_len (launch_failed env e p.state) store;
    step = record {
      request = none;
      result = err (
          operational supervisor_launch (
            format "run {} could not start its supervisor: {}"
              (text p.state.run_id ∷ text (env.shown_error e) ∷ [])));
    };
  }
  after_launch env p store (ok _) = record {
    store = store;
    step =
        start_loop env.shown p.state.run_id p.owner_token p.startup_timeout env.started_at
          env.requested_at false env.turns;
  }

  -- An error before the creation has no `Started`.
  unfoldable pub start : StartEnv u → StartCommand → Store → Result Started
  unfolding after_launch
  start env options store = do
    p ← plan n u sha env.planning options
    created ← create_run u env.failure env.state_len env.spec_len store p.state p.spec p.owner_token
    ok (after_launch env p created env.launch)

  -- The state that is read of the run, whose supervisor is not active.
  abbrev pub Reads : Plan → RunState → Store → Type 0
  Reads p s store =
      (read_state u store p.state.run_id ≡ ok s)
      × (supervisor_active u store p.state.run_id ≡ ok false)

  -- A failed state, with an exit record and the error of the launch.
  abbrev pub IsLaunchFailure : AppError → RunState → Type 0
  IsLaunchFailure e s =
      (s.status ≡ RunStatus.failed)
      × (is_some s.exit ≡ true)
      × (s.failure ≡ some (record { kind = kind_name e.kind; message = e.message }))

  -- What a failed launch leaves, if the write of the failed state fails, and if it does not.
  abbrev pub LeftAs : StartEnv u → Plan → AppError → Option Text → Store → Type 0
  LeftAs env p e (some w) store = Reads p p.state store
  LeftAs env p e none store =
      env.failed_len ≤ document_limit → (s : RunState) × Reads p s store × IsLaunchFailure e s

  abbrev pub AfterLaunch : StartEnv u → Plan → Result (Unit {0}) → Started → Type 0
  AfterLaunch env p (ok _) st = Reads p p.state st.store
  AfterLaunch env p (err e) st =
      LeftAs env p e env.rewrite st.store
      × (st.step.request ≡ none)
      × ((x : AppError) × (st.step.result ≡ err x) × (x.kind ≡ supervisor_launch))
