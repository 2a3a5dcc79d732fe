-- ===== src/Policy/Tests.antt =====
-- The policy engine at a concrete purchase.
use mandate_gateway.Base.{◌≡◌, ◌↔◌, true, none, some, [], ◌∷◌, arith}
use mandate_gateway.Int.{pos, ◌≤ℤ◌}
use mandate_gateway.Types.{Currency, MandateStatus, McpOperation, PolicyDecision, Region}
use mandate_gateway.Policy.{Purchase, evaluate_purchase}
use mandate_gateway.Policy.Eligible.{Eligible}
use mandate_gateway.Policy.Decision.{decision_of, InStepUpZone, purchase_decision}

abbrev purchase : Purchase
purchase = record {
  mandate = record {
    mandate_id = "mandate";
    buyer_id = "buyer";
    version = pos 1;
    merchant_scope = "shop" ∷ [];
    category_scope = "books" ∷ [];
    allowed_regions = [];
    maximum_amount_paise = pos 500;
    daily_budget_paise = pos 1000;
    currency = Currency.inr;
    autonomous_execution = true;
    issued_at = pos 0;
    expires_at = pos 100;
    status = MandateStatus.active;
  };
  merchant_policy = record {
    policy_id = "policy";
    merchant_id = "shop";
    policy_version = pos 1;
    ai_commerce_enabled = true;
    currency = Currency.inr;
    allowed_categories = "Books" ∷ [];
    autonomous_purchase_limit_paise = pos 900;
    step_up_threshold_paise = pos 400;
    max_step_up_percent = pos 10;
    allowed_regions = Region.india ∷ [];
    allowed_operations = McpOperation.create_order ∷ [];
    blocked_operations = [];
    expires_at = none;
  };
  cart = record {
    merchant_id = "shop";
    mandate_id = "mandate";
    currency = Currency.inr;
    items =
        record {
          product_id = "p1";
          name = "A book";
          merchant_id = "shop";
          category = "books";
          quantity = pos 1;
          unit_price_paise = pos 520;
          currency = Currency.inr;
        }
        ∷ [];
    tax_paise = pos 0;
    shipping_paise = pos 0;
    total_paise = pos 520;
    cart_hash = "h";
  };
  budget = none;
  operation = McpOperation.create_order;
  region = Region.india;
  nonce_record = none;
}

purchase_decision_example :
    ((decision_of (evaluate_purchase purchase none (pos 5)) ≡ some PolicyDecision.allow)
      ↔ (Eligible purchase (pos 5) × (pos 520 ≤ℤ pos 500)))
    × ((decision_of (evaluate_purchase purchase none (pos 5))
          ≡ some PolicyDecision.step_up_required)
        ↔ (Eligible purchase (pos 5) × InStepUpZone purchase))
purchase_decision_example = purchase_decision purchase (omega arith) (omega arith) none (pos 5)
