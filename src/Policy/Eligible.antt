-- ===== src/Policy/Eligible.antt =====
-- What passes the checks 1 to 12 of `PolicyEngine.evaluate`, in words of the records.
use mandate_gateway.Base.{
  ◌≡◌, refl, ◌↔◌, inl, inr, true, false, Option, none, some, List, [], ◌∷◌, arith, Option-cases,
  Result, ok, err,
}
use mandate_gateway.Int.{pos, ◌+ℤ◌, ◌≤ℤ◌, ◌<ℤ◌}
use mandate_gateway.Text.{is_empty}
use mandate_gateway.Clock.{Time}
use mandate_gateway.Types.{MandateStatus, NonceState, RejectionReason, same_currency}
use mandate_gateway.Iff.{chain, given_iff}
use mandate_gateway.Ladder.{AllPass, AllPass-append}
use mandate_gateway.Cart.{Cart, CartItem}
use mandate_gateway.Mandate.{BuyerMandate, is_active, authorizes_merchant, authorizes_category}
use mandate_gateway.Merchant.{
  MerchantPolicy, is_active_policy, is_category_allowed, is_region_allowed, operation_in,
}
use mandate_gateway.Budget.{DailyBudget, assert_can_reserve}
use mandate_gateway.Nonce.{NonceRecord, assert_nonce_consumable}
use mandate_gateway.Policy.{
  PolicyCheck, raised, Purchase, operation_check, mandate_check, category_check, currency_check,
  nonce_check, budget_check, policy_checks,
}

-- both the mandate and the policy allow the category of every item
abbrev pub EveryCategory : BuyerMandate → MerchantPolicy → List CartItem → Type 0
EveryCategory m p [] = Unit
EveryCategory m p (i ∷ is) =
    (authorizes_category m i.category ≡ true)
    × (is_category_allowed p i.category ≡ true)
    × EveryCategory m p is

pub record Eligible (q : Purchase) (t : Time) : Type 0 where
  pub enabled : q.merchant_policy.ai_commerce_enabled ≡ true
  pub policy_alive : (e : Time) → q.merchant_policy.expires_at ≡ some e → t <ℤ e
  pub region : is_region_allowed q.merchant_policy q.region ≡ true
  pub not_blocked : operation_in q.operation q.merchant_policy.blocked_operations ≡ false
  pub operation : operation_in q.operation q.merchant_policy.allowed_operations ≡ true
  pub mandate_active : q.mandate.status ≡ MandateStatus.active
  pub mandate_alive : t <ℤ q.mandate.expires_at
  pub merchant : authorizes_merchant q.mandate q.cart.merchant_id ≡ true
  pub categories : EveryCategory q.mandate q.merchant_policy q.cart.items
  pub mandate_currency : q.cart.currency ≡ q.mandate.currency
  pub policy_currency : q.cart.currency ≡ q.merchant_policy.currency
  pub hashed : is_empty q.cart.cart_hash ≡ false
  pub nonce :
      (r : NonceRecord)
      → q.nonce_record ≡ some r
      → (r.state ≡ NonceState.issued) × (t <ℤ r.expires_at)
  pub autonomous : q.mandate.autonomous_execution ≡ true
  pub limit : q.cart.total_paise ≤ℤ q.merchant_policy.autonomous_purchase_limit_paise
  pub budget :
      (b : DailyBudget)
      → q.budget ≡ some b
      → (pos 0 <ℤ q.cart.total_paise)
        × (b.spent_paise +ℤ b.reserved_paise +ℤ q.cart.total_paise ≤ℤ b.daily_limit_paise)

alive_iff :
    (p : MerchantPolicy) (t : Time)
    → (is_active_policy p (some t) t ≡ true) ↔ ((e : Time) → p.expires_at ≡ some e → t <ℤ e)
unfolding is_active_policy
alive_iff p t = (
  λ h e given. ground arith,
  λ h. elim (Option-cases p.expires_at) [
    | inl never ↦ ground arith
    | inr (e, given) ↦ ground (arith, h e given)
  ],
)

mandate_iff :
    (m : BuyerMandate) (t : Time)
    → (mandate_check m t ≡ none) ↔ ((m.status ≡ MandateStatus.active) × (t <ℤ m.expires_at))
unfolding mandate_check is_active
mandate_iff m t = (λ h. (ground arith, ground arith), λ h. ground (arith, h.0, h.1))

category_iff :
    (m : BuyerMandate) (p : MerchantPolicy) (is : List CartItem)
    → (category_check m p is ≡ none) ↔ EveryCategory m p is
unfolding category_check
category_iff m p [] = (λ h. tt, λ h. refl)
category_iff m p (i ∷ is) =
    let rec = category_iff m p is in
    (
      λ h. (ground arith, ground arith, rec.0 (ground arith)),
      λ h. ground (arith, h.0, h.1, rec.1 h.2),
    )

raised_iff :
    {E : Type 0} (m : Result E Unit) (reason : RejectionReason)
    → (raised m reason ≡ none) ↔ (m ≡ ok tt)
unfolding raised
raised_iff (ok u) reason = (λ h. refl, λ h. refl)
raised_iff (err x) reason = (λ h. absurd (ground arith), λ h. absurd (ground arith))

consumable_iff :
    (r : NonceRecord) (t : Time)
    → (assert_nonce_consumable r t ≡ ok tt) ↔ ((r.state ≡ NonceState.issued) × (t <ℤ r.expires_at))
unfolding assert_nonce_consumable
consumable_iff r t = (λ h. (ground arith, ground arith), λ h. ground (arith, h.0, h.1))

reservable_iff :
    (b : DailyBudget) (c : Cart)
    → (assert_can_reserve b c.total_paise ≡ ok tt) ↔ (
        (pos 0 <ℤ c.total_paise)
        × (b.spent_paise +ℤ b.reserved_paise +ℤ c.total_paise ≤ℤ b.daily_limit_paise))
unfolding assert_can_reserve
reservable_iff b c = (λ h. (ground arith, ground arith), λ h. ground (arith, h.0, h.1))

single_iff :
    (check : PolicyCheck) (reason : Option RejectionReason)
    → AllPass ((check, reason) ∷ []) ↔ (reason ≡ none)
single_iff check reason = (λ h. h.0, λ h. (h, tt))

nonce_iff :
    (o : Option NonceRecord) (t : Time)
    → AllPass (nonce_check o t)
      ↔ ((r : NonceRecord) → o ≡ some r → (r.state ≡ NonceState.issued) × (t <ℤ r.expires_at))
unfolding nonce_check
nonce_iff none t = (λ h r e. absurd (ground arith), λ h. tt)
nonce_iff (some r) t = chain (single_iff PolicyCheck.nonce_valid _) (
    chain (raised_iff (assert_nonce_consumable r t) RejectionReason.nonce_already_consumed) (
      chain (consumable_iff r t)
        (given_iff (λ (k : NonceRecord). (k.state ≡ NonceState.issued) × (t <ℤ k.expires_at)) r)))

budget_iff :
    (o : Option DailyBudget) (c : Cart)
    → AllPass (budget_check o c) ↔ (
        (b : DailyBudget)
        → o ≡ some b
        → (pos 0 <ℤ c.total_paise)
          × (b.spent_paise +ℤ b.reserved_paise +ℤ c.total_paise ≤ℤ b.daily_limit_paise))
unfolding budget_check
budget_iff none c = (λ h b e. absurd (ground arith), λ h. tt)
budget_iff (some b) c = chain (single_iff PolicyCheck.budget_available _) (
    chain (raised_iff (assert_can_reserve b c.total_paise) RejectionReason.budget_insufficient) (
      chain (reservable_iff b c) (
        given_iff
          (λ (k : DailyBudget).
            (pos 0 <ℤ c.total_paise)
            × (k.spent_paise +ℤ k.reserved_paise +ℤ c.total_paise ≤ℤ k.daily_limit_paise))
          b)))

-- The checks 1 to 12 pass exactly for an eligible purchase.
pub checks_iff : (q : Purchase) (t : Time) → AllPass (policy_checks q t) ↔ Eligible q t
unfolding policy_checks operation_check currency_check same_currency
checks_iff q t = (
  λ (
    enabled,
    (alive, (region, (operation, (mandate, (merchant, (categories, (currency, (hashed, rest)))))))),
  ).
      let (nonce, (autonomous, (limit, budget))) =
        (AllPass-append (nonce_check q.nonce_record t) _).0 rest in
      record {
        enabled = ground arith;
        policy_alive = (alive_iff q.merchant_policy t).0 (ground arith);
        region = ground arith;
        not_blocked = ground arith;
        operation = ground arith;
        mandate_active = ((mandate_iff q.mandate t).0 mandate).0;
        mandate_alive = ((mandate_iff q.mandate t).0 mandate).1;
        merchant = ground arith;
        categories = (category_iff q.mandate q.merchant_policy q.cart.items).0 categories;
        mandate_currency = ground arith;
        policy_currency = ground arith;
        hashed = ground arith;
        nonce = (nonce_iff q.nonce_record t).0 nonce;
        autonomous = ground arith;
        limit = ground arith;
        budget = (budget_iff q.budget q.cart).0 budget;
      },
  λ e. (
    ground (arith, e.enabled),
    (
      ground (arith, (alive_iff q.merchant_policy t).1 e.policy_alive),
      (
        ground (arith, e.region),
        (
          ground (arith, e.not_blocked, e.operation),
          (
            (mandate_iff q.mandate t).1 (e.mandate_active, e.mandate_alive),
            (
              ground (arith, e.merchant),
              (
                (category_iff q.mandate q.merchant_policy q.cart.items).1 e.categories,
                (
                  ground (arith, e.mandate_currency, e.policy_currency),
                  (
                    ground (arith, e.hashed),
                    (AllPass-append (nonce_check q.nonce_record t) _).1 (
                      (nonce_iff q.nonce_record t).1 e.nonce,
                      (
                        ground (arith, e.autonomous),
                        (ground (arith, e.limit), (budget_iff q.budget q.cart).1 e.budget),
                      ),
                    ),
                  ),
                ),
              ),
            ),
          ),
        ),
      ),
    ),
  ),
)
