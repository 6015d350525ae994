-- ===== src/Model/Readiness.antt =====
-- src/model.rs: readiness conditions, checks and state.
use procherd.Prelude.{
  ℕ, ◌+◌, String, not, Option, none, some, List, [], ◌∷◌, saturating_add, is_empty, if◌then◌else◌,
}
use procherd.Prelude.Texts.{Text, Message, num, format}

pub data ReadinessStatus : Type 0 where
  not_configured pending ready timed_out failed : ReadinessStatus

pub data ReadinessCondition : Type 0 where
  tcp : Text → ReadinessCondition
  http : Text → ReadinessCondition
  file : Text → ReadinessCondition
  log : Text → ReadinessCondition
  port_lease : Text → ReadinessCondition

pub record ReadinessCheck : Type 0 where
  pub id : Message
  pub condition : ReadinessCondition
  pub ready_at_ms : Option ℕ
  pub evidence : Option Message

pub record ReadinessState : Type 0 where
  pub status : ReadinessStatus
  pub timeout_ms : ℕ
  pub deadline_at_ms : Option ℕ
  pub ready_at_ms : Option ℕ
  pub failure_reason : Option String
  pub checks : List ReadinessCheck

-- The mapped closure of `enumerate`, from index `i`.
unfoldable pub new_checks : ℕ → List ReadinessCondition → List ReadinessCheck
new_checks i [] = []
new_checks i (c ∷ cs) =
    record {
      id = format "ready-{}" (num (i + 1) ∷ []);
      condition = c;
      ready_at_ms = none;
      evidence = none;
    }
    ∷ new_checks (i + 1) cs

unfoldable pub new_readiness : List ReadinessCondition → ℕ → ℕ → ReadinessState
unfolding new_checks
new_readiness conditions timeout_ms created_at_ms =
    let configured = not (is_empty conditions) in
    record {
      status = if configured then pending else not_configured;
      timeout_ms = timeout_ms;
      deadline_at_ms = if configured then some (saturating_add created_at_ms timeout_ms) else none;
      ready_at_ms = none;
      failure_reason = none;
      checks = new_checks 0 conditions;
    }
