-- ===== src/Aggregator/Purchase.antt =====
-- What an ALLOW of the aggregator says of the engines whose results it was given.
use mandate_gateway.Base.{String, ◌≡◌, refl, true, false, Option, some, arith}
use mandate_gateway.Text.{strip, is_empty}
use mandate_gateway.Dict.{lookup}
use mandate_gateway.Clock.{Time, time_or_now}
use mandate_gateway.Types.{PolicyDecision}
use mandate_gateway.Cart.{Cart, CommerceIntent}
use mandate_gateway.Mandate.{BuyerMandate}
use mandate_gateway.Mandate.Evaluator.{evaluate}
use mandate_gateway.Mandate.Scope.{Permits, valid_iff_Permits}
use mandate_gateway.Merchant.{MerchantPolicy}
use mandate_gateway.Merchant.Engine.{MerchantPolicyEvaluationResult, evaluate_policy}
use mandate_gateway.Merchant.Scope.{Accepts, allow_iff_Accepts}
use mandate_gateway.Integrity.{
  CanonicalCart, Authorized, verify_integrity, integrity_control_outcome,
}
use mandate_gateway.Budget.{BudgetEvaluationResult}
use mandate_gateway.Nonce.{NonceRecord, NonceEngine, validate_and_consume}
use mandate_gateway.Nonce.Decision.{CanConsume, consume_decision}
use mandate_gateway.Replay.{ReplayEvaluationResult}
use mandate_gateway.Aggregator.{
  SecurityControlOutcome, Given, AuthorizationAggregationInput, from_mandate, from_merchant_policy,
  aggregate,
}
use mandate_gateway.Aggregator.Outcomes.{
  budget_control_outcome, nonce_control_outcome, replay_control_outcome,
}
use mandate_gateway.Aggregator.Decision.{allow_iff_Unanimous}

module _ (m : BuyerMandate) (intent : CommerceIntent) (cart : Option Cart) (value tx : String)
    (e : NonceEngine) (budget : BudgetEvaluationResult) (replay : ReplayEvaluationResult)
    (policy : Option (Given MerchantPolicyEvaluationResult))
    (integrity step_up : Option SecurityControlOutcome) (at : Option Time) (now : Time) where
  -- the outcomes of a purchase under mandate `m`, with the results of the engines
  abbrev pub purchase : AuthorizationAggregationInput
  purchase = record {
    mandate_outcome = some (Given.result (evaluate m intent cart at now));
    merchant_policy_outcome = policy;
    cart_integrity_outcome = integrity;
    budget_outcome = some (budget_control_outcome budget);
    replay_outcome = some (replay_control_outcome replay);
    nonce_outcome =
        some (nonce_control_outcome (validate_and_consume value m.mandate_id tx at now e).0);
    step_up_outcome = step_up;
  }

  -- If the aggregator allows a purchase on the results of the engines, then the mandate permits it at
  -- that time, the budget and the replay results are valid, and the nonce was stored and could be
  -- consumed for this mandate and transaction.
  pub allowed_purchase :
      (request_id : String)
      → (aggregate request_id purchase at now).decision ≡ PolicyDecision.allow
      → Permits m intent cart (time_or_now at now)
        × (budget.valid ≡ true)
        × (replay.valid ≡ true)
        × ((r : NonceRecord) × (is_empty (strip value) ≡ false)
            × (lookup (strip value) e.records ≡ some r)
            × CanConsume r m.mandate_id tx (time_or_now at now))
  unfolding from_mandate budget_control_outcome nonce_control_outcome replay_control_outcome
  allowed_purchase request_id h =
      let u = (allow_iff_Unanimous request_id purchase at now).0 h in
      (
        (valid_iff_Permits m intent cart at now).0
            (ground (arith, u.mandate_given, u.mandate_passes.0)),
        (u.budget_passes _ refl).0,
        (u.replay_passes _ refl).0,
        (consume_decision value m.mandate_id tx at now e).0.0 (u.nonce_passes _ refl).0,
      )

module _ (m : BuyerMandate) (intent : CommerceIntent) (cart : Cart) (value tx : String)
    (e : NonceEngine) (budget : BudgetEvaluationResult) (replay : ReplayEvaluationResult)
    (p : MerchantPolicy) (digest : CanonicalCart → String) (authorized : Authorized)
    (step_up : Option SecurityControlOutcome) (at : Option Time) (now : Time) where
  -- the outcomes of a purchase of a cart, with the results of all the engines
  abbrev pub cart_purchase : AuthorizationAggregationInput
  cart_purchase =
      purchase m intent (some cart) value tx e budget replay
        (some (Given.result (evaluate_policy p intent (some cart) at now)))
        (some (integrity_control_outcome (verify_integrity digest authorized cart at now))) step_up
        at now

  -- If the aggregator allows the purchase of a cart on the results of the engines, then the mandate
  -- permits it and the merchant's policy accepts it at that time, the integrity of the cart, the
  -- budget and the replay results are valid, and the nonce was stored and could be consumed for this
  -- mandate and transaction.
  pub allowed_cart_purchase :
      (request_id : String)
      → (aggregate request_id cart_purchase at now).decision ≡ PolicyDecision.allow
      → Permits m intent (some cart) (time_or_now at now)
        × Accepts p intent (some cart) (time_or_now at now)
        × ((verify_integrity digest authorized cart at now).valid ≡ true)
        × (budget.valid ≡ true)
        × (replay.valid ≡ true)
        × ((r : NonceRecord) × (is_empty (strip value) ≡ false)
            × (lookup (strip value) e.records ≡ some r)
            × CanConsume r m.mandate_id tx (time_or_now at now))
  unfolding from_merchant_policy integrity_control_outcome
  allowed_cart_purchase request_id h =
      let u = (allow_iff_Unanimous request_id cart_purchase at now).0 h in
      let engines =
        allowed_purchase m intent (some cart) value tx e budget replay
          (some (Given.result (evaluate_policy p intent (some cart) at now)))
          (some (integrity_control_outcome (verify_integrity digest authorized cart at now)))
          step_up at now request_id h in
      (
        engines.0,
        (allow_iff_Accepts p intent (some cart) at now).0
            (ground (arith, u.policy_given, u.policy_allows)),
        ground (arith, u.cart_given, u.cart_passes.0),
        engines.1,
        engines.2,
        engines.3,
      )
