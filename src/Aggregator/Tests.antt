-- ===== src/Aggregator/Tests.antt =====
-- The aggregator at concrete inputs.
use mandate_gateway.Base.{
  inl, arith, String, ◌≡◌, refl, ◌↔◌, true, false, Option, none, some, [], ◌∷◌,
}
use mandate_gateway.Int.{pos}
use mandate_gateway.Text.{strip, lower, is_empty}
use mandate_gateway.Dict.{lookup}
use mandate_gateway.Types.{
  Currency, Region, MandateStatus, NonceState, PolicyDecision, RejectionReason, StepUpZone,
  same_currency,
}
use mandate_gateway.Cart.{Cart, CommerceIntent}
use mandate_gateway.Merchant.{MerchantPolicy}
use mandate_gateway.Merchant.Engine.{evaluate_policy}
use mandate_gateway.Merchant.Scope.{Accepts}
use mandate_gateway.Integrity.{
  CanonicalCart, Authorized, verify_integrity, integrity_control_outcome,
}
use mandate_gateway.Mandate.{BuyerMandate, authorizes_amount}
use mandate_gateway.Mandate.Evaluator.{
  autonomous_rule, buyer_rule, currency_rule, amount_rule, evaluate, evaluate_rules, evaluation,
  rules, status_rule, validity_rule, merchant_rule, region_rule, category_rule, eval_amount_paise,
}
use mandate_gateway.Mandate.Scope.{Permits}
use mandate_gateway.Budget.{BudgetEvaluationResult}
use mandate_gateway.Nonce.{NonceRecord, NonceEngine, validate_and_consume, consume_found, refusal}
use mandate_gateway.Nonce.Decision.{CanConsume}
use mandate_gateway.Replay.{ReplayEvaluationResult}
use mandate_gateway.StepUp.{StepUpEvaluationResult}
use mandate_gateway.Aggregator.{
  SecurityControlOutcome, Given, AuthorizationAggregationInput, Control, aggregate,
  aggregate_present, checks, reject, failure, policy_failure, optional_check, run_checks,
  step_up_check, from_mandate, from_merchant_policy, required_diff,
}
use mandate_gateway.Aggregator.Outcomes.{
  budget_control_outcome, nonce_control_outcome, replay_control_outcome, step_up_control_outcome,
}
use mandate_gateway.Aggregator.Decision.{Unanimous, allow_iff_Unanimous}
use mandate_gateway.Aggregator.Precedence.{step_up_outcome_ignored}
use mandate_gateway.Aggregator.Objection.{Objection, first_three, replay_fails}
use mandate_gateway.Aggregator.Rejection.{reject_iff_Objection}
use mandate_gateway.Aggregator.Purchase.{allowed_cart_purchase}

abbrev passes : SecurityControlOutcome
passes = record {
  passed = true;
  decision = PolicyDecision.allow;
  rejection_reason = none;
  step_up_diff = none;
}

abbrev fails : SecurityControlOutcome
fails = record {
  passed = false;
  decision = PolicyDecision.reject;
  rejection_reason = none;
  step_up_diff = none;
}

abbrev input : Option SecurityControlOutcome → AuthorizationAggregationInput
input replay = record {
  mandate_outcome = some (Given.outcome passes);
  merchant_policy_outcome = some (Given.outcome passes);
  cart_integrity_outcome = some passes;
  budget_outcome = none;
  replay_outcome = replay;
  nonce_outcome = some fails;
  step_up_outcome = none;
}

allow_iff_Unanimous_example :
    ((aggregate "req" (input none) none (pos 1)).decision ≡ PolicyDecision.allow)
    ↔ Unanimous (input none)
allow_iff_Unanimous_example = allow_iff_Unanimous "req" (input none) none (pos 1)

reject_iff_Objection_example :
    (aggregate "req" (input (some fails)) none (pos 1)
      ≡ reject "req"
          (pos 1)
          first_three
          Control.replay_protection
          RejectionReason.replay_attempt_detected)
    ↔ Objection
        (input (some fails))
        first_three
        Control.replay_protection
        RejectionReason.replay_attempt_detected
reject_iff_Objection_example =
    reject_iff_Objection "req" (input (some fails)) none (pos 1) first_three
      Control.replay_protection RejectionReason.replay_attempt_detected

-- the objection of the replay protection, before that of the nonce
replay-Objection :
    Objection
      (input (some fails))
      first_three
      Control.replay_protection
      RejectionReason.replay_attempt_detected
replay-Objection =
    replay_fails
      (record {
        mandate = passes;
        mandate_given = refl;
        policy = passes;
        policy_given = refl;
        cart = passes;
        cart_given = refl;
      })
      fails RejectionReason.replay_attempt_detected
      (
        (refl, λ e. absurd (ground arith)),
        λ e. absurd (ground arith),
        (refl, λ e. absurd (ground arith)),
      )
      (λ o e. absurd (ground arith)) refl (inl refl, refl)

-- the step-up engine rejects the total
abbrev above_limit : StepUpEvaluationResult
above_limit = record {
  valid = false;
  decision = PolicyDecision.reject;
  zone = StepUpZone.hard_reject;
  challenge_id = none;
  diff = none;
  rejection_reason = some RejectionReason.exceeds_step_up_hard_limit;
  evaluated_at = pos 1;
}

step_up_outcome_ignored_example :
    aggregate "req"
      (record (input none) { step_up_outcome = some (step_up_control_outcome above_limit) })
      none
      (pos 1)
    ≡ aggregate "req" (input none) none (pos 1)
step_up_outcome_ignored_example =
    step_up_outcome_ignored "req" (input none) none (pos 1) above_limit

abbrev mandate : BuyerMandate
mandate = record {
  mandate_id = "mandate";
  buyer_id = "buyer";
  version = pos 1;
  merchant_scope = [];
  category_scope = [];
  allowed_regions = [];
  maximum_amount_paise = pos 500;
  daily_budget_paise = pos 1000;
  currency = Currency.inr;
  autonomous_execution = true;
  issued_at = pos 0;
  expires_at = pos 100;
  status = MandateStatus.active;
}

abbrev intent : CommerceIntent
intent = record {
  buyer_id = "buyer";
  target_category = none;
  target_merchant_id = none;
  max_budget_paise = some (pos 400);
  currency = Currency.inr;
  region = Region.india;
  metadata_operation = none;
}

abbrev value : String
value = "0123456789abcdef"

abbrev nonces : NonceEngine
nonces = record {
  records =
      (
        value,
        record {
          nonce_value = value;
          transaction_id = "tx";
          mandate_id = "mandate";
          state = NonceState.issued;
          issued_at = pos 1;
          expires_at = pos 60;
          consumed_at = none;
        },
      )
      ∷ [];
}

abbrev budget : BudgetEvaluationResult
budget = record {
  valid = true;
  decision = PolicyDecision.allow;
  mandate_id = "mandate";
  requested_paise = pos 400;
  available_paise = pos 600;
  reservation = none;
  rejection_reason = none;
  evaluated_at = pos 5;
}

abbrev replay : ReplayEvaluationResult
replay = record {
  valid = true;
  decision = PolicyDecision.allow;
  fingerprint = "f";
  mandate_id = "mandate";
  transaction_id = "tx";
  rejection_reason = none;
  evaluated_at = pos 5;
}

abbrev cart : Cart
cart = record {
  merchant_id = "shop";
  mandate_id = "mandate";
  currency = Currency.inr;
  items = [];
  tax_paise = pos 0;
  shipping_paise = pos 400;
  total_paise = pos 400;
  cart_hash = "";
}

abbrev policy : MerchantPolicy
policy = record {
  policy_id = "policy";
  merchant_id = "shop";
  policy_version = pos 1;
  ai_commerce_enabled = true;
  currency = Currency.inr;
  allowed_categories = [];
  autonomous_purchase_limit_paise = pos 500;
  step_up_threshold_paise = pos 400;
  max_step_up_percent = pos 10;
  allowed_regions = [];
  allowed_operations = [];
  blocked_operations = [];
  expires_at = none;
}

abbrev digest : CanonicalCart → String
digest c = "aaaaaaaaaaaaaaaaaaaaaaaaaaaaaaaaaaaaaaaaaaaaaaaaaaaaaaaaaaaaaaaa"

allowed_cart_purchase_example :
    Permits mandate intent (some cart) (pos 5)
    × Accepts policy intent (some cart) (pos 5)
    × ((verify_integrity digest (Authorized.cart cart) cart none (pos 5)).valid ≡ true)
    × (budget.valid ≡ true)
    × (replay.valid ≡ true)
    × ((r : NonceRecord) × (is_empty (strip value) ≡ false)
        × (lookup (strip value) nonces.records ≡ some r)
        × CanConsume r "mandate" "tx" (pos 5))
unfolding aggregate aggregate_present checks failure policy_failure optional_check run_checks
    step_up_check required_diff from_mandate from_merchant_policy evaluate evaluate_rules evaluation
    rules status_rule validity_rule autonomous_rule buyer_rule currency_rule amount_rule
    merchant_rule region_rule category_rule eval_amount_paise authorizes_amount same_currency
    budget_control_outcome nonce_control_outcome replay_control_outcome validate_and_consume
    consume_found refusal strip lookup evaluate_policy integrity_control_outcome verify_integrity
    lower
allowed_cart_purchase_example =
    allowed_cart_purchase mandate intent cart value "tx" nonces budget replay policy digest
      (Authorized.cart cart) none none (pos 5) "req" refl
