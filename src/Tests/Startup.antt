-- ===== src/Tests/Startup.antt =====
-- The start of a run in src/cli.rs and of its supervisor in src/supervisor.rs at concrete values.
use procherd.Prelude.{◌⊎◌, inl, refl, true, none, some, [], inr, arith}
use procherd.Prelude.Texts.{codes}
use procherd.Error.{ok}
use procherd.Model.Status.{RunStatus, is_live}
use procherd.Store.Files.{regular}
use procherd.Supervisor.Startup.{Boot, BootEnv}
use procherd.Supervisor.Supervise.{MarkEnv, supervise}
use procherd.Supervisor.Supervise.Ends.{FinalDoc, TooLong, supervise-ends}
use procherd.Tests.Samples.{one_ulid, plain_hash, plain_base64, sample_state, sample_spec}
use procherd.Tests.Supervisor.{two_turns}

abbrev pub boot_env : BootEnv
boot_env = record {
  run_dir = codes "/state/run";
  parent = some (codes "/state");
  removal = none;
  supervisor_pid = 7;
  starting_at = 2;
  is_utf8 = λ _. true;
  acquired_at = 3;
  temps = ok [];
  reserved = ok [];
  handoff_at = 4;
  spawned = inr 8;
  registry = ok tt;
  failed_at = 5;
  exited_at = 5;
  released_at = 5;
  spawned_at = 5;
  running_at = 6;
  log_file = ok tt;
  begun_instant = 0;
  printed = λ _. 900;
  persisted = λ _. none;
}

abbrev documents : Boot
documents = record {
  spec_file = regular 300 (inr sample_spec);
  state_file = regular 900 (inr (sample_state RunStatus.created));
}

abbrev mark_env : MarkEnv
mark_env = record { updated_at = 9; finished_at = 9; outcome = none; len = 950 }

supervise-ends_example :
    FinalDoc
      (supervise one_ulid plain_hash plain_base64 boot_env two_turns mark_env (ok tt) documents).1
    ⊎ TooLong boot_env
        (supervise one_ulid plain_hash plain_base64 boot_env two_turns mark_env (ok tt) documents).1
unfolding is_live
supervise-ends_example =
    supervise-ends one_ulid plain_hash plain_base64 boot_env two_turns refl mark_env documents
      (900, sample_state RunStatus.created, refl, inl (omega arith), refl) refl
