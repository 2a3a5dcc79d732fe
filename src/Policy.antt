-- ===== src/Policy.antt =====
-- apps/api/domain/policy_engine.py: `PolicyEngine.evaluate`, a ladder of checks on the mandate, the
-- merchant's policy, the cart, the nonce and the budget, and then the classification of the amount.
-- A check gives the reason of its rejection, if it rejects. Detail texts are not modelled.
pub mod Eligible
pub mod Decision
mod Tests
use mandate_gateway.Base.{
  Bool, true, false, not, Option, none, some, List, [], ◌∷◌, ◌++◌, if◌then◌else◌, Result, ok, err,
}
use mandate_gateway.Int.{ltb_ℤ, leb_ℤ}
use mandate_gateway.Text.{is_empty}
use mandate_gateway.Clock.{Time, time_or_now}
use mandate_gateway.Types.{
  McpOperation, PolicyDecision, Region, RejectionReason, StepUpZone, same_currency,
}
use mandate_gateway.Cart.{Cart, CartItem}
use mandate_gateway.Mandate.{BuyerMandate, is_active, authorizes_merchant, authorizes_category}
use mandate_gateway.Mandate.Evaluator.{reject_if}
use mandate_gateway.Merchant.{
  MerchantPolicy, is_active_policy, is_category_allowed, is_region_allowed, operation_in,
}
use mandate_gateway.Budget.{DailyBudget, assert_can_reserve}
use mandate_gateway.Nonce.{NonceRecord, assert_nonce_consumable}
use mandate_gateway.StepUp.{StepUpDiff, StepUpError, StepUpResult, classify_step_up_zone}

pub data PolicyCheck : Type 0 where
  merchant_ai_commerce_enabled merchant_policy_active merchant_region_allowed : PolicyCheck
  operation_allowed buyer_mandate_active mandate_merchant_in_scope : PolicyCheck
  categories_allowed currency_matched cart_integrity_valid nonce_valid : PolicyCheck
  autonomous_execution_permitted merchant_amount_limit_ok budget_available : PolicyCheck
  step_up_not_required : PolicyCheck

pub data FailedPolicyCheck : Type 0 where
  rejected : RejectionReason → FailedPolicyCheck
  step_up_required : FailedPolicyCheck

pub record PolicyEvaluationResult : Type 0 where
  pub decision : PolicyDecision
  pub rejection_reason : Option RejectionReason
  pub step_up_diff : Option StepUpDiff
  pub checks_passed : List PolicyCheck
  pub checks_failed : List FailedPolicyCheck

-- the arguments of `evaluate`, but the time
pub record Purchase : Type 0 where
  pub mandate : BuyerMandate
  pub merchant_policy : MerchantPolicy
  pub cart : Cart
  pub budget : Option DailyBudget
  pub operation : McpOperation
  pub region : Region
  pub nonce_record : Option NonceRecord

-- the local function `_reject`
unfoldable pub reject_policy : RejectionReason → List PolicyCheck → PolicyEvaluationResult
reject_policy reason passed = record {
  decision = PolicyDecision.reject;
  rejection_reason = some reason;
  step_up_diff = none;
  checks_passed = passed;
  checks_failed = FailedPolicyCheck.rejected reason ∷ [];
}

unfoldable pub operation_check : MerchantPolicy → McpOperation → Option RejectionReason
operation_check p o =
    if operation_in o p.blocked_operations
    then some RejectionReason.operation_not_allowed
    else reject_if (not (operation_in o p.allowed_operations)) RejectionReason.operation_not_allowed

unfoldable pub mandate_check : BuyerMandate → Time → Option RejectionReason
mandate_check m t =
    if not (is_active m (some t) t)
    then if leb_ℤ m.expires_at t
      then some RejectionReason.mandate_expired
      else some RejectionReason.mandate_not_active
    else none

-- the loop over the items
unfoldable pub category_check :
    BuyerMandate → MerchantPolicy → List CartItem → Option RejectionReason
category_check m p [] = none
category_check m p (i ∷ is) =
    let rest = category_check m p is in
    if not (authorizes_category m i.category)
    then some RejectionReason.category_not_in_scope
    else if not (is_category_allowed p i.category)
    then some RejectionReason.merchant_category_not_allowed
    else rest

unfoldable pub currency_check : BuyerMandate → MerchantPolicy → Cart → Option RejectionReason
currency_check m p c =
    if not (same_currency c.currency m.currency)
    then some RejectionReason.currency_mismatch
    else reject_if (not (same_currency c.currency p.currency))
        RejectionReason.merchant_currency_not_supported

-- `reason` if the call raises
unfoldable pub raised : {E : Type 0} → Result E Unit → RejectionReason → Option RejectionReason
raised (ok _) reason = none
raised (err _) reason = some reason

-- a check that is made if its record is given
unfoldable pub nonce_check : Option NonceRecord → Time → List (PolicyCheck × Option RejectionReason)
unfolding raised
nonce_check none t = []
nonce_check (some r) t =
    (
      PolicyCheck.nonce_valid,
      raised (assert_nonce_consumable r t) RejectionReason.nonce_already_consumed,
    )
    ∷ []

unfoldable pub budget_check :
    Option DailyBudget → Cart → List (PolicyCheck × Option RejectionReason)
unfolding raised
budget_check none c = []
budget_check (some b) c =
    (
      PolicyCheck.budget_available,
      raised (assert_can_reserve b c.total_paise) RejectionReason.budget_insufficient,
    )
    ∷ []

-- checks 1 to 12, in their order
unfoldable pub policy_checks : Purchase → Time → List (PolicyCheck × Option RejectionReason)
unfolding operation_check mandate_check category_check currency_check nonce_check budget_check
policy_checks q t =
    let p = q.merchant_policy in
    (
      PolicyCheck.merchant_ai_commerce_enabled,
      reject_if (not p.ai_commerce_enabled) RejectionReason.ai_commerce_disabled,
    )
    ∷ (
      PolicyCheck.merchant_policy_active,
      reject_if (not (is_active_policy p (some t) t)) RejectionReason.policy_version_invalid,
    )
    ∷ (
      PolicyCheck.merchant_region_allowed,
      reject_if (not (is_region_allowed p q.region)) RejectionReason.region_not_allowed,
    )
    ∷ (PolicyCheck.operation_allowed, operation_check p q.operation)
    ∷ (PolicyCheck.buyer_mandate_active, mandate_check q.mandate t)
    ∷ (
      PolicyCheck.mandate_merchant_in_scope,
      reject_if (not (authorizes_merchant q.mandate q.cart.merchant_id))
          RejectionReason.merchant_not_in_scope,
    )
    ∷ (PolicyCheck.categories_allowed, category_check q.mandate p q.cart.items)
    ∷ (PolicyCheck.currency_matched, currency_check q.mandate p q.cart)
    ∷ (
      PolicyCheck.cart_integrity_valid,
      reject_if (is_empty q.cart.cart_hash) RejectionReason.cart_integrity_violation,
    )
    ∷ (nonce_check q.nonce_record t
        ++ ((
          PolicyCheck.autonomous_execution_permitted,
          reject_if (not q.mandate.autonomous_execution)
              RejectionReason.autonomous_execution_disabled,
        )
            ∷ (
              PolicyCheck.merchant_amount_limit_ok,
              reject_if (ltb_ℤ p.autonomous_purchase_limit_paise q.cart.total_paise)
                  RejectionReason.merchant_amount_limit_exceeded,
            )
            ∷ budget_check q.budget q.cart))

-- check 13, and the final result
unfoldable pub by_zone : StepUpResult → List PolicyCheck → PolicyEvaluationResult
unfolding reject_policy
by_zone s passed = elim s.zone [
  | StepUpZone.hard_reject ↦ reject_policy RejectionReason.exceeds_step_up_hard_limit passed
  | StepUpZone.step_up_required ↦ record {
    decision = PolicyDecision.step_up_required;
    rejection_reason = none;
    step_up_diff = s.diff;
    checks_passed = passed;
    checks_failed = FailedPolicyCheck.step_up_required ∷ [];
  }
  | StepUpZone.auto_execute ↦ record {
    decision = PolicyDecision.allow;
    rejection_reason = none;
    step_up_diff = none;
    checks_passed = passed ++ PolicyCheck.step_up_not_required ∷ [];
    checks_failed = [];
  }
]

unfoldable pub amount_check :
    Purchase → List PolicyCheck → Result StepUpError PolicyEvaluationResult
unfolding by_zone
amount_check q passed =
    elim (classify_step_up_zone q.cart.total_paise q.mandate.maximum_amount_paise
      q.merchant_policy.max_step_up_percent) [ ok s ↦ ok (by_zone s passed) | err x ↦ err x ]

-- one check after the other, until one rejects
unfoldable pub run_policy_checks :
    Purchase
    → List (PolicyCheck × Option RejectionReason)
    → List PolicyCheck
    → Result StepUpError PolicyEvaluationResult
unfolding reject_policy amount_check
run_policy_checks q [] passed = amount_check q passed
run_policy_checks q ((check, none) ∷ rest) passed = run_policy_checks q rest (passed ++ check ∷ [])
run_policy_checks q ((check, some reason) ∷ rest) passed = ok (reject_policy reason passed)

-- `PolicyEngine.evaluate`
unfoldable pub evaluate_purchase :
    Purchase → Option Time → Time → Result StepUpError PolicyEvaluationResult
unfolding run_policy_checks policy_checks
evaluate_purchase q at now = run_policy_checks q (policy_checks q (time_or_now at now)) []
