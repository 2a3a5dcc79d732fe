-- ===== src/Merchant/Scope.antt =====
-- What a merchant's policy accepts, in words of its fields, beside `MerchantPolicyEngine.evaluate`.
use mandate_gateway.Base.{
  String, ◌≡◌, ◌≢◌, refl, ◌↔◌, ◌⊎◌, inl, inr, true, false, not, ◌&&◌, Option, none, some, List, [],
  ◌∷◌, arith, eq_iff, str_eq, Bool-cases, Option-cases,
}
use mandate_gateway.Int.{◌≤ℤ◌, ◌<ℤ◌}
use mandate_gateway.Text.{lower, is_empty}
use mandate_gateway.Clock.{Time, time_or_now}
use mandate_gateway.Types.{McpOperation, PolicyDecision, RejectionReason, same_currency}
use mandate_gateway.Ladder.{AllPass}
use mandate_gateway.Iff.{not-false, or_false, inr_iff, both_iff, chain}
use mandate_gateway.Cart.{Cart, CartItem, CommerceIntent}
use mandate_gateway.Mandate.Evaluator.{eval_amount_paise, is_nonempty, reject_if}
use mandate_gateway.Mandate.Scope.{scope_rule, reject_iff}
use mandate_gateway.Merchant.{
  MerchantPolicy, is_active_policy, is_category_allowed, is_region_allowed, operation_in,
}
use mandate_gateway.Merchant.Engine.{
  PolicyRule, RuleEvaluationStep, active_rule, switch_rule, target_merchant_differs,
  cart_merchant_differs, mcp_operation, binding_rule, requested_op, operation_rule,
  policy_currency_rule, policy_region_rule, target_category_refused, some_item_refused,
  cart_category_refused, policy_category_rule, limit_rule, policy_rules, policy_evaluation,
  evaluate_policy_rules, evaluate_policy,
}

-- the category of every item is allowed
abbrev pub EveryItemAllowed : MerchantPolicy → List CartItem → Type 0
EveryItemAllowed p [] = Unit
EveryItemAllowed p (i ∷ is) = (is_category_allowed p i.category ≡ true) × EveryItemAllowed p is

-- A target merchant that is given and not empty is the policy's, and so is the cart's, if there is
-- a cart.
abbrev pub OwnMerchant : MerchantPolicy → CommerceIntent → Option Cart → Type 0
OwnMerchant p i cart =
    ((s : String) → i.target_merchant_id ≡ some s → is_empty s ≡ false → s ≡ p.merchant_id)
    × ((c : Cart) → cart ≡ some c → c.merchant_id ≡ p.merchant_id)

-- A target category that is given, not empty and not "multi-category" is allowed, and so are the
-- categories of the cart.
abbrev pub CategoryAllowed : MerchantPolicy → CommerceIntent → Option Cart → Type 0
CategoryAllowed p i cart =
    ((s : String)
      → i.target_category ≡ some s
      → is_empty s ≡ false
      → lower s ≢ "multi-category"
      → is_category_allowed p s ≡ true)
    × ((c : Cart) → cart ≡ some c → EveryItemAllowed p c.items)

-- The policy is in force at time `t`, lets agents buy, is the one of the merchant, and covers the
-- operation, the currency, the region, the category and the amount. An empty set of regions,
-- categories or allowed operations covers everything.
pub record Accepts (p : MerchantPolicy) (i : CommerceIntent) (cart : Option Cart) (t : Time)
    : Type 0 where
  pub alive : (e : Time) → p.expires_at ≡ some e → t <ℤ e
  pub enabled : p.ai_commerce_enabled ≡ true
  pub merchant : OwnMerchant p i cart
  pub not_blocked : operation_in (requested_op i.metadata_operation) p.blocked_operations ≡ false
  pub operation :
      (p.allowed_operations ≡ [])
      ⊎ (operation_in (requested_op i.metadata_operation) p.allowed_operations ≡ true)
  pub currency : i.currency ≡ p.currency
  pub region : (p.allowed_regions ≡ []) ⊎ (is_region_allowed p i.region ≡ true)
  pub category : (p.allowed_categories ≡ []) ⊎ CategoryAllowed p i cart
  pub amount : eval_amount_paise i cart ≤ℤ p.autonomous_purchase_limit_paise

evaluate_policy_rules-allow :
    (p : MerchantPolicy) (t : Time) (tests : List (PolicyRule × Option RejectionReason))
    (steps : List RuleEvaluationStep)
    → ((evaluate_policy_rules p t tests steps).decision ≡ PolicyDecision.allow) ↔ AllPass tests
unfolding evaluate_policy_rules policy_evaluation
evaluate_policy_rules-allow p t [] steps = (λ h. tt, λ h. refl)
evaluate_policy_rules-allow p t ((rule, some reason) ∷ rest) steps =
    (λ h. absurd (ground arith), λ h. absurd (ground arith))
evaluate_policy_rules-allow p t ((rule, none) ∷ rest) steps =
    let rec = evaluate_policy_rules-allow p t rest _ in (λ h. (refl, rec.0 h), λ h. rec.1 h.1)

active_iff :
    (p : MerchantPolicy) (t : Time)
    → (active_rule p t ≡ none) ↔ ((e : Time) → p.expires_at ≡ some e → t <ℤ e)
unfolding active_rule is_active_policy
active_iff p t = (
  λ h e given. ground arith,
  λ h. elim (Option-cases p.expires_at) [
    | inl never ↦ ground arith
    | inr (e, given) ↦ ground (arith, h e given)
  ],
)

target_iff :
    (p : MerchantPolicy) (o : Option String)
    → (target_merchant_differs p o ≡ false)
      ↔ ((s : String) → o ≡ some s → is_empty s ≡ false → s ≡ p.merchant_id)
unfolding target_merchant_differs
target_iff p none = (λ h s e n. absurd (ground arith), λ h. refl)
target_iff p (some s) = (
  λ h s' e n. ground (arith, eq_iff s' p.merchant_id),
  λ h. elim (Bool-cases (is_empty s)) [
    | inl empty ↦ ground arith
    | inr given ↦ ground (arith, h s refl given, eq_iff s p.merchant_id)
  ],
)

cart_iff :
    (p : MerchantPolicy) (o : Option Cart)
    → (cart_merchant_differs p o ≡ false)
      ↔ ((c : Cart) → o ≡ some c → c.merchant_id ≡ p.merchant_id)
unfolding cart_merchant_differs
cart_iff p none = (λ h c e. absurd (ground arith), λ h. refl)
cart_iff p (some c) = (
  λ h c' e. ground (arith, eq_iff c.merchant_id p.merchant_id),
  λ h. ground (arith, h c refl, eq_iff c.merchant_id p.merchant_id),
)

none_refused :
    (p : MerchantPolicy) (is : List CartItem)
    → (some_item_refused p is ≡ false) ↔ EveryItemAllowed p is
unfolding some_item_refused
none_refused p [] = (λ h. tt, λ h. refl)
none_refused p (i ∷ is) =
    let rec = none_refused p is in
    (λ h. (ground arith, rec.0 (ground arith)), λ h. ground (arith, rec.1 h.1))

target_category_iff :
    (p : MerchantPolicy) (o : Option String)
    → (target_category_refused p o ≡ false) ↔ (
        (s : String)
        → o ≡ some s
        → is_empty s ≡ false
        → lower s ≢ "multi-category"
        → is_category_allowed p s ≡ true)
unfolding target_category_refused
target_category_iff p none = (λ h s e n k. absurd (ground arith), λ h. refl)
target_category_iff p (some s) =
    let multi = eq_iff (lower s) "multi-category" in
    (
      λ h s' e n k. ground (arith, multi, eq_iff (lower s') "multi-category"),
      λ h. elim (Bool-cases (is_empty s)) [
        | inl empty ↦ ground arith
        | inr given ↦ elim (Bool-cases (str_eq (lower s) "multi-category")) [
          | inl same ↦ ground arith
          | inr other ↦ ground (arith, h s refl given (λ q. ground (arith, multi)))
        ]
      ],
    )

cart_category_iff :
    (p : MerchantPolicy) (o : Option Cart)
    → (cart_category_refused p o ≡ false) ↔ ((c : Cart) → o ≡ some c → EveryItemAllowed p c.items)
unfolding cart_category_refused
cart_category_iff p none = (λ h c e. absurd (ground arith), λ h. refl)
cart_category_iff p (some c) = (
  λ h c' e. (none_refused p c'.items).0 (ground arith),
  λ h. (none_refused p c.items).1 (h c refl),
)

-- the test on the allowed operations, which an empty set passes
allowed_iff :
    (p : MerchantPolicy) (o : McpOperation)
    → (reject_if
          (is_nonempty p.allowed_operations && not (operation_in o p.allowed_operations))
          RejectionReason.operation_not_allowed
        ≡ none)
      ↔ ((p.allowed_operations ≡ []) ⊎ (operation_in o p.allowed_operations ≡ true))
allowed_iff p o = chain (scope_rule p.allowed_operations _ _) (inr_iff (not-false _))

operation_iff :
    (p : MerchantPolicy) (o : McpOperation)
    → (operation_rule p o ≡ none) ↔ (
        (operation_in o p.blocked_operations ≡ false)
        × ((p.allowed_operations ≡ []) ⊎ (operation_in o p.allowed_operations ≡ true)))
unfolding operation_rule
operation_iff p o = (
  λ h. (ground arith, (allowed_iff p o).0 (ground arith)),
  λ h. ground (arith, h.0, (allowed_iff p o).1 h.1),
)

module _ (p : MerchantPolicy) (i : CommerceIntent) (cart : Option Cart) where
  binding_iff : (binding_rule p i cart ≡ none) ↔ OwnMerchant p i cart
  unfolding binding_rule
  binding_iff =
      chain (reject_iff _ _)
        (chain (or_false _ _) (both_iff (target_iff p i.target_merchant_id) (cart_iff p cart)))

  region_iff :
      (policy_region_rule p i ≡ none)
      ↔ ((p.allowed_regions ≡ []) ⊎ (is_region_allowed p i.region ≡ true))
  unfolding policy_region_rule
  region_iff = chain (scope_rule p.allowed_regions _ _) (inr_iff (not-false _))

  category_iff :
      (policy_category_rule p i cart ≡ none)
      ↔ ((p.allowed_categories ≡ []) ⊎ CategoryAllowed p i cart)
  unfolding policy_category_rule
  category_iff = chain (scope_rule p.allowed_categories _ _) (
      inr_iff (
        chain (or_false _ _)
          (both_iff (target_category_iff p i.target_category) (cart_category_iff p cart))))

  rules_iff : (t : Time) → AllPass (policy_rules p i cart t) ↔ Accepts p i cart t
  unfolding policy_rules switch_rule policy_currency_rule limit_rule same_currency
  rules_iff t =
      let operation = operation_iff p (requested_op i.metadata_operation) in
      (
        λ (alive, (enabled, (own, (op, (currency, (region, (category, (amount, end)))))))). record {
          alive = (active_iff p t).0 alive;
          enabled = ground arith;
          merchant = binding_iff.0 own;
          not_blocked = (operation.0 op).0;
          operation = (operation.0 op).1;
          currency = ground arith;
          region = region_iff.0 region;
          category = category_iff.0 category;
          amount = ground arith;
        },
        λ a. (
          (active_iff p t).1 a.alive,
          (
            ground (arith, a.enabled),
            (
              binding_iff.1 a.merchant,
              (
                operation.1 (a.not_blocked, a.operation),
                (
                  ground (arith, a.currency),
                  (
                    region_iff.1 a.region,
                    (category_iff.1 a.category, (ground (arith, a.amount), tt)),
                  ),
                ),
              ),
            ),
          ),
        ),
      )

-- The engine allows exactly if the policy accepts the intent and the cart at that time.
pub allow_iff_Accepts :
    (p : MerchantPolicy) (i : CommerceIntent) (cart : Option Cart) (at : Option Time) (now : Time)
    → ((evaluate_policy p i cart at now).decision ≡ PolicyDecision.allow)
      ↔ Accepts p i cart (time_or_now at now)
unfolding evaluate_policy
allow_iff_Accepts p i cart at now =
    chain
      (evaluate_policy_rules-allow p (time_or_now at now)
        (policy_rules p i cart (time_or_now at now)) [])
      (rules_iff p i cart (time_or_now at now))

-- An operation that is no known one is evaluated as `create_order`: the result is the same as for
-- an intent without an operation.
unknown_operation_accepted :
    (p : MerchantPolicy) (i : CommerceIntent) (s : String) (cart : Option Cart) (at : Option Time)
    (now : Time)
    → mcp_operation (lower s) ≡ none
    → evaluate_policy p (record i { metadata_operation = some s }) cart at now
      ≡ evaluate_policy p (record i { metadata_operation = none }) cart at now
unfolding evaluate_policy policy_rules requested_op binding_rule policy_currency_rule
    policy_region_rule policy_category_rule limit_rule eval_amount_paise
unknown_operation_accepted p i s cart at now h = rw (h, requested_op) refl
