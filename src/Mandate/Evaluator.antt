-- ===== src/Mandate/Evaluator.antt =====
-- `MandateEvaluator.evaluate` (apps/api/domain/mandate_lifecycle.py): nine rules in a fixed order.
-- Each rule gives the reason of its failure, if it fails; every rule that is reached leaves a step,
-- and the first failure ends the evaluation. The details of the steps are not modelled.
use mandate_gateway.Base.{
  String, Bool, true, false, not, ◌&&◌, ◌||◌, Option, none, some, List, [], ◌∷◌, ◌++◌, str_eq,
  get_or, if◌then◌else◌,
}
use mandate_gateway.Int.{ℤ, pos, ltb_ℤ, leb_ℤ}
use mandate_gateway.Text.{lower, is_empty}
use mandate_gateway.Clock.{Time, time_or_now}
use mandate_gateway.Types.{MandateStatus, RejectionReason, same_currency}
use mandate_gateway.Cart.{Cart, CartItem, CommerceIntent}
use mandate_gateway.Mandate.{
  BuyerMandate, authorizes_merchant, authorizes_category, authorizes_amount, authorizes_region,
}

pub data Rule : Type 0 where
  mandate_status autonomous_execution validity_window buyer_binding merchant_scope : Rule
  currency_allowed region_allowed category_scope amount_within_mandate_cap : Rule

pub record MandateRuleEvaluationStep : Type 0 where
  pub rule_name : Rule
  pub passed : Bool

pub record MandateEvaluationResult : Type 0 where
  pub valid : Bool
  pub mandate_id : String
  pub buyer_id : String
  pub status : MandateStatus
  pub rejection_reason : Option RejectionReason
  pub evaluated_rules : List MandateRuleEvaluationStep
  pub evaluated_at : Time

-- `reason` if the test fails
abbrev pub reject_if : Bool → RejectionReason → Option RejectionReason
reject_if failed reason = if failed then some reason else none

abbrev pub is_nonempty {ℓ} : {A : Type ℓ} → List A → Bool
is_nonempty [] = false
is_nonempty (x ∷ xs) = true

unfoldable pub status_rule : MandateStatus → Option RejectionReason
status_rule MandateStatus.suspended = some RejectionReason.mandate_not_active
status_rule MandateStatus.revoked = some RejectionReason.mandate_revoked
status_rule MandateStatus.expired = some RejectionReason.mandate_expired
status_rule MandateStatus.draft = some RejectionReason.mandate_not_active
status_rule MandateStatus.active = none

unfoldable pub validity_rule : BuyerMandate → Time → Option RejectionReason
validity_rule m t =
    if ltb_ℤ t m.issued_at
    then some RejectionReason.mandate_ttl_expired
    else if leb_ℤ m.expires_at t
    then some RejectionReason.mandate_expired
    else none

-- the target merchant of the intent is given, and is outside the scope
unfoldable pub target_merchant_outside : BuyerMandate → Option String → Bool
target_merchant_outside m none = false
target_merchant_outside m (some s) = not (is_empty s) && not (authorizes_merchant m s)

unfoldable pub cart_merchant_outside : BuyerMandate → Option Cart → Bool
cart_merchant_outside m none = false
cart_merchant_outside m (some c) = not (authorizes_merchant m c.merchant_id)

unfoldable pub merchant_rule : BuyerMandate → CommerceIntent → Option Cart → Option RejectionReason
unfolding target_merchant_outside cart_merchant_outside
merchant_rule m i cart =
    reject_if
      (is_nonempty m.merchant_scope
        && (target_merchant_outside m i.target_merchant_id || cart_merchant_outside m cart))
      RejectionReason.merchant_not_in_scope

unfoldable pub region_rule : BuyerMandate → CommerceIntent → Option RejectionReason
region_rule m i =
    reject_if (is_nonempty m.allowed_regions && not (authorizes_region m i.region))
      RejectionReason.region_not_allowed

-- the target category of the intent is given, is not "multi-category", and is outside the scope
unfoldable pub target_category_outside : BuyerMandate → Option String → Bool
target_category_outside m none = false
target_category_outside m (some c) =
    not (is_empty c) && not (str_eq (lower c) "multi-category") && not (authorizes_category m c)

unfoldable pub some_item_outside : BuyerMandate → List CartItem → Bool
some_item_outside m [] = false
some_item_outside m (i ∷ is) = not (authorizes_category m i.category) || some_item_outside m is

unfoldable pub cart_category_outside : BuyerMandate → Option Cart → Bool
unfolding some_item_outside
cart_category_outside m none = false
cart_category_outside m (some c) = some_item_outside m c.items

unfoldable pub category_rule : BuyerMandate → CommerceIntent → Option Cart → Option RejectionReason
unfolding target_category_outside cart_category_outside
category_rule m i cart =
    reject_if
      (is_nonempty m.category_scope
        && (target_category_outside m i.target_category || cart_category_outside m cart))
      RejectionReason.category_not_in_scope

-- `cart.total_paise if cart else (intent.max_budget_paise or 0)`
unfoldable pub eval_amount_paise : CommerceIntent → Option Cart → ℤ
eval_amount_paise i none = get_or i.max_budget_paise (pos 0)
eval_amount_paise i (some c) = c.total_paise

unfoldable pub autonomous_rule : BuyerMandate → Option RejectionReason
autonomous_rule m =
    reject_if (not m.autonomous_execution) RejectionReason.autonomous_execution_disabled

unfoldable pub buyer_rule : BuyerMandate → CommerceIntent → Option RejectionReason
buyer_rule m i = reject_if (not (str_eq i.buyer_id m.buyer_id)) RejectionReason.mandate_not_in_scope

unfoldable pub currency_rule : BuyerMandate → CommerceIntent → Option RejectionReason
currency_rule m i =
    reject_if (not (same_currency i.currency m.currency)) RejectionReason.currency_mismatch

unfoldable pub amount_rule : BuyerMandate → CommerceIntent → Option Cart → Option RejectionReason
unfolding eval_amount_paise authorizes_amount
amount_rule m i cart =
    reject_if (not (authorizes_amount m (eval_amount_paise i cart)))
      RejectionReason.amount_exceeds_mandate

-- the rules in their order, each with the reason of its failure
unfoldable pub rules :
    BuyerMandate → CommerceIntent → Option Cart → Time → List (Rule × Option RejectionReason)
unfolding status_rule autonomous_rule validity_rule buyer_rule merchant_rule currency_rule
    region_rule category_rule amount_rule
rules m i cart t =
    (Rule.mandate_status, status_rule m.status)
    ∷ (Rule.autonomous_execution, autonomous_rule m)
    ∷ (Rule.validity_window, validity_rule m t)
    ∷ (Rule.buyer_binding, buyer_rule m i)
    ∷ (Rule.merchant_scope, merchant_rule m i cart)
    ∷ (Rule.currency_allowed, currency_rule m i)
    ∷ (Rule.region_allowed, region_rule m i)
    ∷ (Rule.category_scope, category_rule m i cart)
    ∷ (Rule.amount_within_mandate_cap, amount_rule m i cart)
    ∷ []

unfoldable pub evaluation :
    BuyerMandate
    → Option RejectionReason
    → List MandateRuleEvaluationStep
    → Time
    → MandateEvaluationResult
evaluation m reason steps t = record {
  valid = elim reason [ none ↦ true | some _ ↦ false ];
  mandate_id = m.mandate_id;
  buyer_id = m.buyer_id;
  status = m.status;
  rejection_reason = reason;
  evaluated_rules = steps;
  evaluated_at = t;
}

-- one rule after the other, until one fails; `steps` are those that passed
unfoldable pub evaluate_rules :
    BuyerMandate
    → Time
    → List (Rule × Option RejectionReason)
    → List MandateRuleEvaluationStep
    → MandateEvaluationResult
unfolding evaluation
evaluate_rules m t [] steps = evaluation m none steps t
evaluate_rules m t ((rule, none) ∷ rest) steps =
    evaluate_rules m t rest (steps ++ record { rule_name = rule; passed = true } ∷ [])
evaluate_rules m t ((rule, some reason) ∷ rest) steps =
    evaluation m (some reason) (steps ++ record { rule_name = rule; passed = false } ∷ []) t

unfoldable pub evaluate :
    BuyerMandate → CommerceIntent → Option Cart → Option Time → Time → MandateEvaluationResult
unfolding evaluate_rules rules
evaluate m i cart at now =
    evaluate_rules m (time_or_now at now) (rules m i cart (time_or_now at now)) []
