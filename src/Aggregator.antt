-- ===== src/Aggregator.antt =====
-- apps/api/domain/authorization_aggregator.py: the outcomes of the security controls, in one form,
-- and their aggregation into a decision. Detail texts are not modelled, nor is the name of the
-- control in an outcome, which the aggregator does not read.
pub mod Outcomes
pub mod Decision
pub mod Precedence
pub mod Objection
pub mod Rejection
pub mod Purchase
mod Tests
use mandate_gateway.Base.{
  String, Bool, true, false, not, ◌||◌, Option, none, some, List, [], ◌∷◌, ◌++◌, get_or,
  if◌then◌else◌,
}
use mandate_gateway.Clock.{Time, time_or_now}
use mandate_gateway.Types.{PolicyDecision, RejectionReason, is_allow, is_reject, is_step_up}
use mandate_gateway.StepUp.{StepUpDiff}
use mandate_gateway.Mandate.Evaluator.{MandateEvaluationResult}
use mandate_gateway.Merchant.Engine.{MerchantPolicyEvaluationResult}

pub record SecurityControlOutcome : Type 0 where
  pub passed : Bool
  pub decision : PolicyDecision
  pub rejection_reason : Option RejectionReason
  pub step_up_diff : Option StepUpDiff

unfoldable pub from_mandate : MandateEvaluationResult → SecurityControlOutcome
from_mandate res = record {
  passed = res.valid;
  decision = if res.valid then PolicyDecision.allow else PolicyDecision.reject;
  rejection_reason = res.rejection_reason;
  step_up_diff = none;
}

-- A result of the merchant's policy has no `step_up_diff`.
unfoldable pub from_merchant_policy : MerchantPolicyEvaluationResult → SecurityControlOutcome
from_merchant_policy res = record {
  passed = is_allow res.decision || is_step_up res.decision;
  decision = res.decision;
  rejection_reason = res.rejection_reason;
  step_up_diff = none;
}

-- an outcome, or an evaluation result that the aggregator makes one of
pub data Given (R : Type 0) : Type 0 where
  outcome : SecurityControlOutcome → Given R
  result : R → Given R

abbrev pub normalized :
    {R : Type 0} → (R → SecurityControlOutcome) → Option (Given R) → Option SecurityControlOutcome
normalized convert none = none
normalized convert (some (Given.outcome o)) = some o
normalized convert (some (Given.result r)) = some (convert r)

pub record AuthorizationAggregationInput : Type 0 where
  pub mandate_outcome : Option (Given MandateEvaluationResult)
  pub merchant_policy_outcome : Option (Given MerchantPolicyEvaluationResult)
  pub cart_integrity_outcome : Option SecurityControlOutcome
  pub budget_outcome : Option SecurityControlOutcome
  pub replay_outcome : Option SecurityControlOutcome
  pub nonce_outcome : Option SecurityControlOutcome
  pub step_up_outcome : Option SecurityControlOutcome

pub data Control : Type 0 where
  mandate_scope_lifecycle merchant_commerce_policy cart_integrity : Control
  budget_reservation replay_protection nonce_validation step_up_not_required : Control

pub data FailedCheck : Type 0 where
  rejected : Control → RejectionReason → FailedCheck
  step_up_required : FailedCheck

pub record AggregatedAuthorizationResult : Type 0 where
  pub decision : PolicyDecision
  pub request_id : String
  pub rejection_reason : Option RejectionReason
  pub step_up_diff : Option StepUpDiff
  pub checks_passed : List Control
  pub checks_failed : List FailedCheck
  pub evaluated_at : Time

-- the local function `_reject`
unfoldable pub reject :
    String → Time → List Control → Control → RejectionReason → AggregatedAuthorizationResult
reject request_id t passed control reason = record {
  decision = PolicyDecision.reject;
  request_id = request_id;
  rejection_reason = some reason;
  step_up_diff = none;
  checks_passed = passed;
  checks_failed = FailedCheck.rejected control reason ∷ [];
  evaluated_at = t;
}

-- A control that passed, or the reason for which it rejects. A merchant policy rejects by its
-- decision alone.
unfoldable pub failure : SecurityControlOutcome → RejectionReason → Option RejectionReason
failure o fallback =
    if not o.passed || is_reject o.decision then some (get_or o.rejection_reason fallback) else none

unfoldable pub policy_failure : SecurityControlOutcome → Option RejectionReason
policy_failure o =
    if is_reject o.decision
    then some (get_or o.rejection_reason RejectionReason.operation_not_allowed)
    else none

-- a control that is checked if its outcome is provided
unfoldable pub optional_check :
    Control
    → Option SecurityControlOutcome
    → RejectionReason
    → List (Control × Option RejectionReason)
unfolding failure
optional_check control none fallback = []
optional_check control (some o) fallback = (control, failure o fallback) ∷ []

-- checks 2 to 7, in their order
unfoldable pub checks :
    SecurityControlOutcome
    → SecurityControlOutcome
    → SecurityControlOutcome
    → AuthorizationAggregationInput
    → List (Control × Option RejectionReason)
unfolding failure policy_failure optional_check
checks mandate policy cart i =
    (Control.mandate_scope_lifecycle, failure mandate RejectionReason.mandate_not_active)
    ∷ (Control.merchant_commerce_policy, policy_failure policy)
    ∷ (Control.cart_integrity, failure cart RejectionReason.cart_integrity_violation)
    ∷ (optional_check Control.budget_reservation i.budget_outcome
          RejectionReason.budget_insufficient
        ++ (optional_check Control.replay_protection i.replay_outcome
              RejectionReason.replay_attempt_detected
            ++ optional_check Control.nonce_validation i.nonce_outcome
                RejectionReason.nonce_already_consumed))

-- the difference that check 8 reads from the outcome of the step-up control
unfoldable pub required_diff : Option SecurityControlOutcome → Option StepUpDiff
required_diff none = none
required_diff (some o) = if is_step_up o.decision then o.step_up_diff else none

-- check 8, and the final outcome
unfoldable pub step_up_check :
    SecurityControlOutcome
    → Option SecurityControlOutcome
    → String
    → Time
    → List Control
    → AggregatedAuthorizationResult
unfolding required_diff
step_up_check policy step_up request_id t passed =
    let diff = if is_step_up policy.decision then policy.step_up_diff else required_diff step_up in
    elim diff [
      | some d ↦ required (some d)
      | none ↦ if is_step_up policy.decision then required none else allowed
    ]
  where
    required : Option StepUpDiff → AggregatedAuthorizationResult
    required diff = record {
      decision = PolicyDecision.step_up_required;
      request_id = request_id;
      rejection_reason = none;
      step_up_diff = diff;
      checks_passed = passed;
      checks_failed = FailedCheck.step_up_required ∷ [];
      evaluated_at = t;
    }

    allowed : AggregatedAuthorizationResult
    allowed = record {
      decision = PolicyDecision.allow;
      request_id = request_id;
      rejection_reason = none;
      step_up_diff = none;
      checks_passed = passed ++ Control.step_up_not_required ∷ [];
      checks_failed = [];
      evaluated_at = t;
    }

-- one check after the other, until one rejects; `passed` are those that passed
unfoldable pub run_checks :
    String
    → Time
    → List (Control × Option RejectionReason)
    → List Control
    → (List Control → AggregatedAuthorizationResult)
    → AggregatedAuthorizationResult
unfolding reject
run_checks request_id t [] passed finish = finish passed
run_checks request_id t ((control, none) ∷ rest) passed finish =
    run_checks request_id t rest (passed ++ control ∷ []) finish
run_checks request_id t ((control, some reason) ∷ rest) passed finish =
    reject request_id t passed control reason

-- checks 2 to 8, for the three outcomes that must be present
unfoldable pub aggregate_present :
    SecurityControlOutcome
    → SecurityControlOutcome
    → SecurityControlOutcome
    → String
    → AuthorizationAggregationInput
    → Time
    → AggregatedAuthorizationResult
unfolding run_checks checks step_up_check
aggregate_present mandate policy cart request_id i t =
    run_checks request_id t (checks mandate policy cart i) []
      (step_up_check policy i.step_up_outcome request_id t)

unfoldable pub aggregate :
    String → AuthorizationAggregationInput → Option Time → Time → AggregatedAuthorizationResult
unfolding from_mandate from_merchant_policy reject aggregate_present
aggregate request_id i at now = elim (normalized from_mandate i.mandate_outcome) [
  | none ↦ missing Control.mandate_scope_lifecycle
  | some mandate ↦ elim (normalized from_merchant_policy i.merchant_policy_outcome) [
    | none ↦ missing Control.merchant_commerce_policy
    | some policy ↦ elim i.cart_integrity_outcome [
      | none ↦ missing Control.cart_integrity
      | some cart ↦ aggregate_present mandate policy cart request_id i (time_or_now at now)
    ]
  ]
]
  where
    missing : Control → AggregatedAuthorizationResult
    missing control =
        reject request_id (time_or_now at now) [] control RejectionReason.control_result_missing
