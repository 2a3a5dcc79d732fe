-- ===== src/Aggregator/Outcomes.antt =====
-- The methods `to_security_control_outcome` of the results of the engines.
use mandate_gateway.Base.{none}
use mandate_gateway.Budget.{BudgetEvaluationResult}
use mandate_gateway.Nonce.{NonceEvaluationResult}
use mandate_gateway.Replay.{ReplayEvaluationResult}
use mandate_gateway.StepUp.{StepUpEvaluationResult}
use mandate_gateway.Aggregator.{SecurityControlOutcome}

unfoldable pub budget_control_outcome : BudgetEvaluationResult → SecurityControlOutcome
budget_control_outcome res = record {
  passed = res.valid;
  decision = res.decision;
  rejection_reason = res.rejection_reason;
  step_up_diff = none;
}

unfoldable pub nonce_control_outcome : NonceEvaluationResult → SecurityControlOutcome
nonce_control_outcome res = record {
  passed = res.valid;
  decision = res.decision;
  rejection_reason = res.rejection_reason;
  step_up_diff = none;
}

unfoldable pub replay_control_outcome : ReplayEvaluationResult → SecurityControlOutcome
replay_control_outcome res = record {
  passed = res.valid;
  decision = res.decision;
  rejection_reason = res.rejection_reason;
  step_up_diff = none;
}

-- It does not pass on the difference of the result.
unfoldable pub step_up_control_outcome : StepUpEvaluationResult → SecurityControlOutcome
step_up_control_outcome res = record {
  passed = res.valid;
  decision = res.decision;
  rejection_reason = res.rejection_reason;
  step_up_diff = none;
}
