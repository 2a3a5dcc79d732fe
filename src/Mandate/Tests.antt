-- ===== src/Mandate/Tests.antt =====
-- Mandates at concrete inputs.
use mandate_gateway.Base.{◌≡◌, ◌↔◌, ◌⊎◌, true, false, none, some, [], ◌∷◌, ◌++◌, map}
use mandate_gateway.Int.{pos}
use mandate_gateway.Types.{Currency, Region, MandateStatus}
use mandate_gateway.Cart.{CommerceIntent}
use mandate_gateway.Mandate.{BuyerMandate}
use mandate_gateway.Mandate.Evaluator.{evaluate}
use mandate_gateway.Mandate.Scope.{Permits, valid_iff_Permits}
use mandate_gateway.Mandate.Trace.{
  passed_step, failed_step, rule_order, AllMeet, FirstUnmet, reason_for, result,
  trace_of_evaluation,
}

abbrev mandate : MandateStatus → BuyerMandate
mandate status = record {
  mandate_id = "mandate";
  buyer_id = "buyer";
  version = pos 1;
  merchant_scope = "shop" ∷ [];
  category_scope = "books" ∷ [];
  allowed_regions = [];
  maximum_amount_paise = pos 500;
  daily_budget_paise = pos 1000;
  currency = Currency.inr;
  autonomous_execution = true;
  issued_at = pos 0;
  expires_at = pos 100;
  status = status;
}

abbrev intent : CommerceIntent
intent = record {
  buyer_id = "buyer";
  target_category = some "Books";
  target_merchant_id = some "shop";
  max_budget_paise = some (pos 400);
  currency = Currency.inr;
  region = Region.india;
  metadata_operation = none;
}

valid_iff_Permits_example :
    ((evaluate (mandate MandateStatus.active) intent none none (pos 5)).valid ≡ true)
    ↔ Permits (mandate MandateStatus.active) intent none (pos 5)
valid_iff_Permits_example =
    valid_iff_Permits (mandate MandateStatus.active) intent none none (pos 5)

trace_of_evaluation_example :
    (AllMeet (mandate MandateStatus.draft) intent none (pos 5) rule_order
      × (evaluate (mandate MandateStatus.draft) intent none none (pos 5)
          ≡ result (mandate MandateStatus.draft) true none (map passed_step rule_order) (pos 5)))
    ⊎ ((f : FirstUnmet (mandate MandateStatus.draft) intent none (pos 5) rule_order) × (evaluate
            (mandate MandateStatus.draft)
            intent
            none
            none
            (pos 5)
          ≡ result
              (mandate MandateStatus.draft)
              false
              (some (reason_for (mandate MandateStatus.draft) intent none (pos 5) f.rule))
              (map passed_step f.before ++ failed_step f.rule ∷ [])
              (pos 5)))
trace_of_evaluation_example =
    trace_of_evaluation (mandate MandateStatus.draft) intent none none (pos 5)
