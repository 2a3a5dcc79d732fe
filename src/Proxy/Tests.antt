-- ===== src/Proxy/Tests.antt =====
-- A tool's input at a concrete transaction: objects are texts.
use mandate_gateway.Base.{◌≡◌, refl, false, none, some, [], ◌∷◌}
use mandate_gateway.Int.{pos}
use mandate_gateway.Dict.{Dict}
use mandate_gateway.Text.{lower, strip}
use mandate_gateway.Types.{Currency, PolicyDecision, TransactionState}
use mandate_gateway.Transaction.{Transaction}
use mandate_gateway.Execution.{AuthorizationResult}
use mandate_gateway.Execution.Once.{new_service}
use mandate_gateway.Proxy.{
  Value, text, number, Builtins, validate_url_safety, invoke_execution_tool,
}
use mandate_gateway.Proxy.Isolation.{Padded, bare, shared, padding, authority_ignored}
use mandate_gateway.Base.{String}

abbrev py : Builtins String
py = record { str_number = λ n. "0"; str_object = λ o. o; int_text = λ s. none }

abbrev approved : Transaction
approved = record {
  transaction_id = "tx";
  buyer_id = "buyer";
  merchant_id = "shop";
  mandate_id = "mandate";
  mandate_version = pos 1;
  policy_version = pos 1;
  cart_id = none;
  cart_hash = some "ab";
  amount_paise = pos 400;
  currency = Currency.inr;
  state = TransactionState.authorized;
  rejection_reason = none;
  idempotency_key = "key";
  nonce = none;
  created_at = pos 1;
  updated_at = pos 1;
  step_up_required_at = none;
  step_up_approved_at = none;
  step_up_amount_paise = none;
  razorpay_order_id = none;
  razorpay_payment_id = none;
}

abbrev approval : AuthorizationResult
approval = record {
  decision = PolicyDecision.allow;
  rejection_reason = none;
  control_outcomes =
      ("MANDATE_EVALUATION", PolicyDecision.allow)
      ∷ ("MERCHANT_POLICY", PolicyDecision.allow)
      ∷ ("CART_INTEGRITY", PolicyDecision.allow)
      ∷ ("BUDGET_RESERVATION", PolicyDecision.allow)
      ∷ ("REPLAY_PROTECTION", PolicyDecision.allow)
      ∷ ("NONCE_VALIDATION", PolicyDecision.allow)
      ∷ [];
}

abbrev input : Dict (Value String)
input = ("operation", text "create_order") ∷ ("amount_paise", number (pos 400)) ∷ []

abbrev forced : Dict (Value String)
forced =
    ("operation", text "create_order")
    ∷ ("Force_Execute", number (pos 1))
    ∷ ("amount_paise", number (pos 400))
    ∷ ("authorized", text "yes")
    ∷ []

forced-Padded : Padded input forced
unfolding lower
forced-Padded = shared _ _ (padding _ _ refl (shared _ _ (padding _ _ refl bare)))

local_url : validate_url_safety " HTTP://LocalHost:80/" ≡ false
unfolding validate_url_safety lower strip
local_url = refl

authority_ignored_example :
    invoke_execution_tool py forced approval approved none none (pos 5) new_service
    ≡ invoke_execution_tool py input approval approved none none (pos 5) new_service
authority_ignored_example =
    authority_ignored py approval approved none none (pos 5) new_service input forced forced-Padded
