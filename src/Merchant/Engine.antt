-- ===== src/Merchant/Engine.antt =====
-- `MerchantPolicyEngine.evaluate` (apps/api/domain/merchant_policy_engine.py): eight rules in a fixed
-- order. Each rule gives the reason of its failure, if it fails; every rule that is reached leaves a
-- step, and the first failure ends the evaluation. Detail texts are not modelled.
use mandate_gateway.Base.{
  String, Bool, true, false, not, ◌&&◌, ◌||◌, Option, none, some, List, [], ◌∷◌, ◌++◌, str_eq,
  if◌then◌else◌,
}
use mandate_gateway.Int.{ℤ, ltb_ℤ}
use mandate_gateway.Text.{lower, is_empty}
use mandate_gateway.Clock.{Time, time_or_now}
use mandate_gateway.Types.{McpOperation, PolicyDecision, RejectionReason, same_currency}
use mandate_gateway.Cart.{Cart, CartItem, CommerceIntent}
use mandate_gateway.Mandate.Evaluator.{reject_if, is_nonempty, eval_amount_paise}
use mandate_gateway.Merchant.{
  MerchantPolicy, is_active_policy, is_category_allowed, is_region_allowed, operation_in,
}

pub data PolicyRule : Type 0 where
  policy_active ai_commerce_enabled merchant_binding operation_allowed : PolicyRule
  currency_allowed region_allowed category_allowed amount_within_autonomous_limit : PolicyRule

pub record RuleEvaluationStep : Type 0 where
  pub rule_name : PolicyRule
  pub passed : Bool

pub record MerchantPolicyEvaluationResult : Type 0 where
  pub decision : PolicyDecision
  pub merchant_id : String
  pub policy_id : String
  pub policy_version : ℤ
  pub rejection_reason : Option RejectionReason
  pub evaluated_rules : List RuleEvaluationStep
  pub evaluated_at : Time

unfoldable pub active_rule : MerchantPolicy → Time → Option RejectionReason
unfolding is_active_policy
active_rule p t =
    reject_if (not (is_active_policy p (some t) t)) RejectionReason.merchant_policy_expired

unfoldable pub switch_rule : MerchantPolicy → Option RejectionReason
switch_rule p = reject_if (not p.ai_commerce_enabled) RejectionReason.ai_commerce_disabled

unfoldable pub target_merchant_differs : MerchantPolicy → Option String → Bool
target_merchant_differs p none = false
target_merchant_differs p (some s) = not (is_empty s) && not (str_eq s p.merchant_id)

unfoldable pub cart_merchant_differs : MerchantPolicy → Option Cart → Bool
cart_merchant_differs p none = false
cart_merchant_differs p (some c) = not (str_eq c.merchant_id p.merchant_id)

unfoldable pub binding_rule : MerchantPolicy → CommerceIntent → Option Cart → Option RejectionReason
unfolding target_merchant_differs cart_merchant_differs
binding_rule p i cart =
    reject_if (target_merchant_differs p i.target_merchant_id || cart_merchant_differs p cart)
      RejectionReason.merchant_mismatch

-- `McpOperation(value)`, which raises for a text that no member has
unfoldable pub mcp_operation : String → Option McpOperation
mcp_operation s =
    if str_eq s "create_order"
    then some McpOperation.create_order
    else if str_eq s "create_payment_link"
    then some McpOperation.create_payment_link
    else if str_eq s "fetch_payment"
    then some McpOperation.fetch_payment
    else if str_eq s "payout"
    then some McpOperation.payout
    else if str_eq s "settlement"
    then some McpOperation.settlement
    else if str_eq s "bank_transfer"
    then some McpOperation.bank_transfer
    else none

-- A text that no operation has counts as `create_order`, like no text at all.
unfoldable pub requested_op : Option String → McpOperation
unfolding mcp_operation
requested_op none = McpOperation.create_order
requested_op (some s) = elim (mcp_operation (lower s)) [
  | none ↦ McpOperation.create_order
  | some o ↦ o
]

unfoldable pub operation_rule : MerchantPolicy → McpOperation → Option RejectionReason
unfolding operation_in
operation_rule p o =
    if operation_in o p.blocked_operations
    then some RejectionReason.operation_not_allowed
    else if is_nonempty p.allowed_operations && not (operation_in o p.allowed_operations)
    then some RejectionReason.operation_not_allowed
    else none

unfoldable pub policy_currency_rule : MerchantPolicy → CommerceIntent → Option RejectionReason
policy_currency_rule p i =
    reject_if (not (same_currency i.currency p.currency))
      RejectionReason.merchant_currency_not_supported

unfoldable pub policy_region_rule : MerchantPolicy → CommerceIntent → Option RejectionReason
unfolding is_region_allowed
policy_region_rule p i =
    reject_if (is_nonempty p.allowed_regions && not (is_region_allowed p i.region))
      RejectionReason.region_not_allowed

unfoldable pub target_category_refused : MerchantPolicy → Option String → Bool
target_category_refused p none = false
target_category_refused p (some c) =
    not (is_empty c) && not (str_eq (lower c) "multi-category") && not (is_category_allowed p c)

unfoldable pub some_item_refused : MerchantPolicy → List CartItem → Bool
some_item_refused p [] = false
some_item_refused p (i ∷ is) = not (is_category_allowed p i.category) || some_item_refused p is

unfoldable pub cart_category_refused : MerchantPolicy → Option Cart → Bool
unfolding some_item_refused
cart_category_refused p none = false
cart_category_refused p (some c) = some_item_refused p c.items

unfoldable pub policy_category_rule :
    MerchantPolicy → CommerceIntent → Option Cart → Option RejectionReason
unfolding target_category_refused cart_category_refused
policy_category_rule p i cart =
    reject_if
      (is_nonempty p.allowed_categories
        && (target_category_refused p i.target_category || cart_category_refused p cart))
      RejectionReason.merchant_category_not_allowed

unfoldable pub limit_rule : MerchantPolicy → CommerceIntent → Option Cart → Option RejectionReason
unfolding eval_amount_paise
limit_rule p i cart =
    reject_if (ltb_ℤ p.autonomous_purchase_limit_paise (eval_amount_paise i cart))
      RejectionReason.merchant_amount_limit_exceeded

-- the rules in their order, each with the reason of its failure
unfoldable pub policy_rules :
    MerchantPolicy
    → CommerceIntent
    → Option Cart
    → Time
    → List (PolicyRule × Option RejectionReason)
unfolding active_rule switch_rule binding_rule requested_op operation_rule policy_currency_rule
    policy_region_rule policy_category_rule limit_rule
policy_rules p i cart t =
    (PolicyRule.policy_active, active_rule p t)
    ∷ (PolicyRule.ai_commerce_enabled, switch_rule p)
    ∷ (PolicyRule.merchant_binding, binding_rule p i cart)
    ∷ (PolicyRule.operation_allowed, operation_rule p (requested_op i.metadata_operation))
    ∷ (PolicyRule.currency_allowed, policy_currency_rule p i)
    ∷ (PolicyRule.region_allowed, policy_region_rule p i)
    ∷ (PolicyRule.category_allowed, policy_category_rule p i cart)
    ∷ (PolicyRule.amount_within_autonomous_limit, limit_rule p i cart)
    ∷ []

unfoldable pub policy_evaluation :
    MerchantPolicy
    → Option RejectionReason
    → List RuleEvaluationStep
    → Time
    → MerchantPolicyEvaluationResult
policy_evaluation p reason steps t = record {
  decision = elim reason [ none ↦ PolicyDecision.allow | some _ ↦ PolicyDecision.reject ];
  merchant_id = p.merchant_id;
  policy_id = p.policy_id;
  policy_version = p.policy_version;
  rejection_reason = reason;
  evaluated_rules = steps;
  evaluated_at = t;
}

-- one rule after the other, until one fails; `steps` are those that passed
unfoldable pub evaluate_policy_rules :
    MerchantPolicy
    → Time
    → List (PolicyRule × Option RejectionReason)
    → List RuleEvaluationStep
    → MerchantPolicyEvaluationResult
unfolding policy_evaluation
evaluate_policy_rules p t [] steps = policy_evaluation p none steps t
evaluate_policy_rules p t ((rule, none) ∷ rest) steps =
    evaluate_policy_rules p t rest (steps ++ record { rule_name = rule; passed = true } ∷ [])
evaluate_policy_rules p t ((rule, some reason) ∷ rest) steps =
    policy_evaluation p (some reason) (steps ++ record { rule_name = rule; passed = false } ∷ []) t

unfoldable pub evaluate_policy :
    MerchantPolicy
    → CommerceIntent
    → Option Cart
    → Option Time
    → Time
    → MerchantPolicyEvaluationResult
unfolding evaluate_policy_rules policy_rules
evaluate_policy p i cart at now =
    evaluate_policy_rules p (time_or_now at now) (policy_rules p i cart (time_or_now at now)) []
