-- ===== src/Mandate/Scope.antt =====
-- What a mandate permits, in words of its scope, beside `MandateEvaluator.evaluate`.
use mandate_gateway.Base.{
  String, ◌≡◌, ◌≢◌, refl, ◌↔◌, ◌⊎◌, inl, inr, Bool, true, false, ◌&&◌, Option, none, some, List, [],
  ◌∷◌, arith, eq_iff, str_eq, Bool-cases,
}
use mandate_gateway.Int.{◌≤ℤ◌, ◌<ℤ◌}
use mandate_gateway.Text.{lower, is_empty}
use mandate_gateway.Clock.{Time, time_or_now}
use mandate_gateway.Types.{MandateStatus, RejectionReason, same_currency, is_terminal_status}
use mandate_gateway.Ladder.{AllPass}
use mandate_gateway.Cart.{Cart, CartItem, CommerceIntent}
use mandate_gateway.Mandate.{
  BuyerMandate, authorizes_merchant, authorizes_category, authorizes_amount, authorizes_region,
}
use mandate_gateway.Mandate.Evaluator.{
  Rule, autonomous_rule, buyer_rule, currency_rule, amount_rule, evaluate, evaluate_rules,
  evaluation, rules, status_rule, validity_rule, merchant_rule, region_rule, category_rule,
  eval_amount_paise, target_merchant_outside, cart_merchant_outside, target_category_outside,
  cart_category_outside, some_item_outside, is_nonempty, reject_if, MandateRuleEvaluationStep,
}
use mandate_gateway.Iff.{or_false, inr_iff, both_iff, chain}
use mandate_gateway.Mandate.Lifecycle.{attempts, attempts-terminal}

-- the category of every item is in the mandate's scope
abbrev pub EveryItem : BuyerMandate → List CartItem → Type 0
EveryItem m [] = Unit
EveryItem m (i ∷ is) = (authorizes_category m i.category ≡ true) × EveryItem m is

-- A target merchant or category that is given and not empty, and the cart, if there is one, are
-- in scope; the target category "multi-category" is not tested.
abbrev pub MerchantInScope : BuyerMandate → CommerceIntent → Option Cart → Type 0
MerchantInScope m i cart =
    ((s : String)
      → i.target_merchant_id ≡ some s
      → is_empty s ≡ false
      → authorizes_merchant m s ≡ true)
    × ((c : Cart) → cart ≡ some c → authorizes_merchant m c.merchant_id ≡ true)

abbrev pub CategoryInScope : BuyerMandate → CommerceIntent → Option Cart → Type 0
CategoryInScope m i cart =
    ((s : String)
      → i.target_category ≡ some s
      → is_empty s ≡ false
      → lower s ≢ "multi-category"
      → authorizes_category m s ≡ true)
    × ((c : Cart) → cart ≡ some c → EveryItem m c.items)

-- The mandate is in force at time `t`, belongs to the buyer, and covers the merchant, the currency,
-- the region, the category and the amount. An empty scope covers everything.
pub record Permits (m : BuyerMandate) (i : CommerceIntent) (cart : Option Cart) (t : Time)
    : Type 0 where
  pub status : m.status ≡ MandateStatus.active
  pub autonomous : m.autonomous_execution ≡ true
  pub issued : m.issued_at ≤ℤ t
  pub alive : t <ℤ m.expires_at
  pub buyer : i.buyer_id ≡ m.buyer_id
  pub merchant : (m.merchant_scope ≡ []) ⊎ MerchantInScope m i cart
  pub currency : i.currency ≡ m.currency
  pub region : (m.allowed_regions ≡ []) ⊎ (authorizes_region m i.region ≡ true)
  pub category : (m.category_scope ≡ []) ⊎ CategoryInScope m i cart
  pub amount : eval_amount_paise i cart ≤ℤ m.maximum_amount_paise

evaluate_rules-valid :
    (m : BuyerMandate) (t : Time) (tests : List (Rule × Option RejectionReason))
    (steps : List MandateRuleEvaluationStep)
    → ((evaluate_rules m t tests steps).valid ≡ true) ↔ AllPass tests
unfolding evaluate_rules evaluation
evaluate_rules-valid m t [] steps = (λ h. tt, λ h. refl)
evaluate_rules-valid m t ((rule, some reason) ∷ rest) steps =
    (λ h. absurd (ground arith), λ h. absurd (ground arith))
evaluate_rules-valid m t ((rule, none) ∷ rest) steps =
    let rec = evaluate_rules-valid m t rest _ in (λ h. (refl, rec.0 h), λ h. rec.1 h.1)

pub reject_iff :
    (failed : Bool) (reason : RejectionReason) → (reject_if failed reason ≡ none) ↔ (failed ≡ false)
reject_iff failed reason = (λ h. ground arith, λ h. ground arith)

-- A rule on a scope passes for an empty scope, or where its test does.
pub scope_rule :
    {A : Type 0} (xs : List A) (outside : Bool) (reason : RejectionReason)
    → (reject_if (is_nonempty xs && outside) reason ≡ none) ↔ ((xs ≡ []) ⊎ (outside ≡ false))
scope_rule [] outside reason = (λ h. inl refl, λ h. refl)
scope_rule (x ∷ xs) true reason = (λ h. absurd (ground arith), λ h. absurd (ground arith))
scope_rule (x ∷ xs) false reason = (λ h. inr refl, λ h. refl)

none_outside :
    (m : BuyerMandate) (is : List CartItem) → (some_item_outside m is ≡ false) ↔ EveryItem m is
unfolding some_item_outside
none_outside m [] = (λ h. tt, λ h. refl)
none_outside m (i ∷ is) =
    let rec = none_outside m is in
    (λ h. (ground arith, rec.0 (ground arith)), λ h. ground (arith, rec.1 h.1))

target_merchant_iff :
    (m : BuyerMandate) (o : Option String)
    → (target_merchant_outside m o ≡ false)
      ↔ ((s : String) → o ≡ some s → is_empty s ≡ false → authorizes_merchant m s ≡ true)
unfolding target_merchant_outside
target_merchant_iff m none = (λ h s e n. absurd (ground arith), λ h. refl)
target_merchant_iff m (some s) = (
  λ h s' e n. ground arith,
  λ h. elim (Bool-cases (is_empty s)) [
    | inl empty ↦ ground arith
    | inr given ↦ ground (arith, h s refl given)
  ],
)

cart_merchant_iff :
    (m : BuyerMandate) (o : Option Cart)
    → (cart_merchant_outside m o ≡ false)
      ↔ ((c : Cart) → o ≡ some c → authorizes_merchant m c.merchant_id ≡ true)
unfolding cart_merchant_outside
cart_merchant_iff m none = (λ h c e. absurd (ground arith), λ h. refl)
cart_merchant_iff m (some c) = (λ h c' e. ground arith, λ h. ground (arith, h c refl))

target_category_iff :
    (m : BuyerMandate) (o : Option String)
    → (target_category_outside m o ≡ false) ↔ (
        (s : String)
        → o ≡ some s
        → is_empty s ≡ false
        → lower s ≢ "multi-category"
        → authorizes_category m s ≡ true)
unfolding target_category_outside
target_category_iff m none = (λ h s e n k. absurd (ground arith), λ h. refl)
target_category_iff m (some s) =
    let multi = eq_iff (lower s) "multi-category" in
    (
      λ h s' e n k. ground (arith, multi, eq_iff (lower s') "multi-category"),
      λ h. elim (Bool-cases (is_empty s)) [
        | inl empty ↦ ground arith
        | inr given ↦ elim (Bool-cases (str_eq (lower s) "multi-category")) [
          | inl same ↦ ground arith
          | inr other ↦ ground (arith, h s refl given (λ p. ground (arith, multi)))
        ]
      ],
    )

cart_category_iff :
    (m : BuyerMandate) (o : Option Cart)
    → (cart_category_outside m o ≡ false) ↔ ((c : Cart) → o ≡ some c → EveryItem m c.items)
unfolding cart_category_outside
cart_category_iff m none = (λ h c e. absurd (ground arith), λ h. refl)
cart_category_iff m (some c) = (
  λ h c' e. (none_outside m c'.items).0 (ground arith),
  λ h. (none_outside m c.items).1 (h c refl),
)

module _ (m : BuyerMandate) (i : CommerceIntent) (cart : Option Cart) where
  pub merchant_iff :
      (merchant_rule m i cart ≡ none) ↔ ((m.merchant_scope ≡ []) ⊎ MerchantInScope m i cart)
  unfolding merchant_rule
  merchant_iff = chain (scope_rule m.merchant_scope _ _) (
      inr_iff (
        chain (or_false _ _)
          (both_iff (target_merchant_iff m i.target_merchant_id) (cart_merchant_iff m cart))))

  pub category_iff :
      (category_rule m i cart ≡ none) ↔ ((m.category_scope ≡ []) ⊎ CategoryInScope m i cart)
  unfolding category_rule
  category_iff = chain (scope_rule m.category_scope _ _) (
      inr_iff (
        chain (or_false _ _)
          (both_iff (target_category_iff m i.target_category) (cart_category_iff m cart))))

  pub region_iff :
      (region_rule m i ≡ none) ↔ ((m.allowed_regions ≡ []) ⊎ (authorizes_region m i.region ≡ true))
  unfolding region_rule
  region_iff =
      chain (scope_rule m.allowed_regions _ _) (inr_iff (λ h. ground arith, λ h. ground arith))

  rules_iff : (t : Time) → AllPass (rules m i cart t) ↔ Permits m i cart t
  unfolding rules status_rule autonomous_rule validity_rule buyer_rule currency_rule amount_rule
      same_currency authorizes_amount
  rules_iff t = (
    λ (
      status,
      (autonomous, (window, (buyer, (merchant, (currency, (region, (category, (amount, end)))))))),
    ).
        record {
          status = ground arith;
          autonomous = ground arith;
          issued = ground arith;
          alive = ground arith;
          buyer = ground (arith, eq_iff i.buyer_id m.buyer_id);
          merchant = merchant_iff.0 merchant;
          currency = ground arith;
          region = region_iff.0 region;
          category = category_iff.0 category;
          amount = ground arith;
        },
    λ p. (
      ground (arith, p.status),
      (
        ground (arith, p.autonomous),
        (
          ground (arith, p.issued, p.alive),
          (
            ground (arith, p.buyer, eq_iff i.buyer_id m.buyer_id),
            (
              merchant_iff.1 p.merchant,
              (
                ground (arith, p.currency),
                (
                  region_iff.1 p.region,
                  (category_iff.1 p.category, (ground (arith, p.amount), tt)),
                ),
              ),
            ),
          ),
        ),
      ),
    ),
  )

-- The evaluation is valid exactly if the mandate permits the intent and the cart at that time.
pub valid_iff_Permits :
    (m : BuyerMandate) (i : CommerceIntent) (cart : Option Cart) (at : Option Time) (now : Time)
    → ((evaluate m i cart at now).valid ≡ true) ↔ Permits m i cart (time_or_now at now)
unfolding evaluate
valid_iff_Permits m i cart at now =
    chain (evaluate_rules-valid m (time_or_now at now) (rules m i cart (time_or_now at now)) [])
      (rules_iff m i cart (time_or_now at now))

-- A mandate that is revoked or expired permits nothing any more: after any attempts to change its
-- status every evaluation rejects, with the reason for that status.
ended_mandate_rejects :
    (m : BuyerMandate) (targets : List MandateStatus) (i : CommerceIntent) (cart : Option Cart)
    (at : Option Time) (now : Time)
    → is_terminal_status m.status ≡ true
    → let result = evaluate (attempts m targets) i cart at now in
      (result.valid ≡ false) × (result.rejection_reason ≡ status_rule m.status)
unfolding evaluate evaluate_rules evaluation rules status_rule is_terminal_status
ended_mandate_rejects m targets i cart at now h =
    rw (attempts-terminal m targets h) (ground arith, ground arith)
