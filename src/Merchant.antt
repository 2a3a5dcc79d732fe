-- ===== src/Merchant.antt =====
-- apps/api/domain/merchant.py: the policy of a merchant, its validator and its queries. A frozen set
-- is the list of its members.
pub mod Engine
pub mod Scope
mod Tests
use mandate_gateway.Base.{
  String, Bool, true, false, not, ◌&&◌, ◌||◌, Option, none, some, List, [], ◌∷◌, map, if◌then◌else◌,
  Result, ok, err,
}
use mandate_gateway.Int.{ℤ, pos, ltb_ℤ}
use mandate_gateway.Text.{lower, is_empty}
use mandate_gateway.Clock.{Time, time_or_now}
use mandate_gateway.Types.{Currency, Region, McpOperation}
use mandate_gateway.Mandate.{text_in, region_in}

pub data PolicyError : Type 0 where
  validation threshold overlap : PolicyError

pub record MerchantPolicy : Type 0 where
  pub policy_id : String
  pub merchant_id : String
  pub policy_version : ℤ
  pub ai_commerce_enabled : Bool
  pub currency : Currency
  pub allowed_categories : List String
  pub autonomous_purchase_limit_paise : ℤ
  pub step_up_threshold_paise : ℤ
  pub max_step_up_percent : ℤ
  pub allowed_regions : List Region
  pub allowed_operations : List McpOperation
  pub blocked_operations : List McpOperation
  pub expires_at : Option Time

unfoldable pub same_operation : McpOperation → McpOperation → Bool
same_operation McpOperation.create_order McpOperation.create_order = true
same_operation McpOperation.create_payment_link McpOperation.create_payment_link = true
same_operation McpOperation.fetch_payment McpOperation.fetch_payment = true
same_operation McpOperation.payout McpOperation.payout = true
same_operation McpOperation.settlement McpOperation.settlement = true
same_operation McpOperation.bank_transfer McpOperation.bank_transfer = true
same_operation _ _ = false

-- `operation in operations`
unfoldable pub operation_in : McpOperation → List McpOperation → Bool
unfolding same_operation
operation_in o [] = false
operation_in o (p ∷ ps) = same_operation o p || operation_in o ps

-- `self.allowed_operations & self.blocked_operations` has a member
unfoldable pub overlaps : List McpOperation → List McpOperation → Bool
unfolding operation_in
overlaps [] blocked = false
overlaps (o ∷ os) blocked = operation_in o blocked || overlaps os blocked

-- The bounds of the fields, then `_validate_thresholds`.
unfoldable pub validate_thresholds : MerchantPolicy → Result PolicyError MerchantPolicy
unfolding overlaps
validate_thresholds p =
    if is_empty p.merchant_id
      || ltb_ℤ p.policy_version (pos 1)
      || ltb_ℤ p.autonomous_purchase_limit_paise (pos 0)
      || ltb_ℤ p.step_up_threshold_paise (pos 0)
      || ltb_ℤ p.max_step_up_percent (pos 0)
      || ltb_ℤ (pos 100) p.max_step_up_percent
    then err PolicyError.validation
    else if ltb_ℤ p.autonomous_purchase_limit_paise p.step_up_threshold_paise
    then err PolicyError.threshold
    else if overlaps p.allowed_operations p.blocked_operations
    then err PolicyError.overlap
    else ok p

unfoldable pub is_operation_allowed : MerchantPolicy → McpOperation → Bool
unfolding operation_in
is_operation_allowed p o =
    if not p.ai_commerce_enabled
    then false
    else if operation_in o p.blocked_operations
    then false
    else operation_in o p.allowed_operations

unfoldable pub is_category_allowed : MerchantPolicy → String → Bool
unfolding text_in
is_category_allowed p c = text_in (lower c) (map lower p.allowed_categories)

unfoldable pub is_region_allowed : MerchantPolicy → Region → Bool
unfolding region_in
is_region_allowed p r = region_in r p.allowed_regions

unfoldable pub is_active_policy : MerchantPolicy → Option Time → Time → Bool
is_active_policy p at now = elim p.expires_at [
  | none ↦ true
  | some t ↦ ltb_ℤ (time_or_now at now) t
]
