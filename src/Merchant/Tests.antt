-- ===== src/Merchant/Tests.antt =====
-- Merchant policies at concrete inputs.
use mandate_gateway.Base.{◌≡◌, ◌↔◌, true, none, some, [], ◌∷◌}
use mandate_gateway.Int.{pos}
use mandate_gateway.Types.{Currency, Region, McpOperation, PolicyDecision}
use mandate_gateway.Cart.{CommerceIntent}
use mandate_gateway.Merchant.{MerchantPolicy}
use mandate_gateway.Merchant.Engine.{evaluate_policy}
use mandate_gateway.Merchant.Scope.{Accepts, allow_iff_Accepts}

abbrev policy : MerchantPolicy
policy = record {
  policy_id = "policy";
  merchant_id = "shop";
  policy_version = pos 1;
  ai_commerce_enabled = true;
  currency = Currency.inr;
  allowed_categories = "Books" ∷ [];
  autonomous_purchase_limit_paise = pos 500;
  step_up_threshold_paise = pos 400;
  max_step_up_percent = pos 10;
  allowed_regions = Region.india ∷ [];
  allowed_operations = McpOperation.create_order ∷ [];
  blocked_operations = McpOperation.payout ∷ [];
  expires_at = some (pos 100);
}

abbrev intent : CommerceIntent
intent = record {
  buyer_id = "buyer";
  target_category = some "books";
  target_merchant_id = some "shop";
  max_budget_paise = some (pos 500);
  currency = Currency.inr;
  region = Region.india;
  metadata_operation = some "PAYOUT";
}

allow_iff_Accepts_example :
    ((evaluate_policy policy intent none none (pos 5)).decision ≡ PolicyDecision.allow)
    ↔ Accepts policy intent none (pos 5)
allow_iff_Accepts_example = allow_iff_Accepts policy intent none none (pos 5)
