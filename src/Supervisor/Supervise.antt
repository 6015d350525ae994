-- ===== src/Supervisor/Supervise.antt =====
-- src/supervisor.rs: `supervise` and `supervise_locked` as a whole.
pub mod Ends
use procherd.Prelude.{ℕ, Bool, List, Option}
use procherd.Prelude.Texts.{codes}
use procherd.Error.{AppError, Result, ok, err}
use procherd.Model.Documents.{SupervisorSpec}
use procherd.Logs.Writer.{Sha256, Base64}
use procherd.Store.Files.{atomic_write_json}
use procherd.Store.RunId.{Ulid}
use procherd.Supervisor.Body.{Body, ◌>>=◌}
use procherd.Supervisor.Failure.{mark_supervisor_failed}
use procherd.Supervisor.Loop.{Turn, Live, supervise_loop}
use procherd.Supervisor.Startup.{Boot, BootEnv, boot}

-- What `mark_supervisor_failed` reads from outside, and the length of the document that it prints.
pub record MarkEnv : Type 0 where
  pub updated_at : ℕ
  pub finished_at : ℕ
  pub outcome : Option AppError
  pub len : ℕ

-- After `supervise_locked`.
finish_run : MarkEnv → Result Bool × Boot → Result Bool × Boot
finish_run mark (ok r, b) = (ok r, b)
finish_run mark (err e, b) = (
  err e,
  record b {
    state_file =
        mark_supervisor_failed (codes "state.json") mark.updated_at mark.finished_at mark.outcome
          mark.len e b.state_file;
  },
)

module _ (u : Ulid) (sha : Sha256) (b64 : Base64) where
  -- The loop keeps the state document; a list of turns that is too short gives `false`.
  run_loop : BootEnv → List Turn → SupervisorSpec × Live sha b64 → Body Boot Bool
  run_loop env turns (spec, live) b =
      let (r, l) = supervise_loop sha b64 spec turns live in
      (r, record b { state_file = atomic_write_json (env.printed l.disk) l.disk })

  unfoldable pub supervise_locked : BootEnv → List Turn → Body Boot Bool
  unfolding run_loop
  supervise_locked env turns = do begun ← boot u sha b64 env; run_loop env turns begun

  locked_run : BootEnv → List Turn → MarkEnv → Result (Unit {0}) → Boot → Result Bool × Boot
  unfolding supervise_locked finish_run
  locked_run env turns mark (err e) b = (err e, b)
  locked_run env turns mark (ok _) b = finish_run mark (supervise_locked env turns b)

  -- `lock` is the result of `open_supervisor_lock`.
  unfoldable pub supervise :
      BootEnv → List Turn → MarkEnv → Result (Unit {0}) → Boot → Result Bool × Boot
  unfolding locked_run
  supervise = locked_run
