-- ===== src/Receipt/Tests.antt =====
-- Receipts at concrete inputs: keys and bytes are texts, a signature is the signed text, and base64
-- puts a letter in front.
use Prim.Native.String.{[] as empty_text, ◌∷◌ as text_cons}
use mandate_gateway.Base.{
  String, ◌≡◌, refl, ◌↔◌, true, Option, none, some, ok, arith, str_eq, eq_iff,
}
use mandate_gateway.Int.{pos}
use mandate_gateway.Text.{text_length}
use mandate_gateway.Types.{Currency, PolicyDecision}
use mandate_gateway.Audit.{Canonical}
use mandate_gateway.Receipt.{
  ActionReceipt, Crypto, IsSound, KeyInput, SignRequest, in_bounds, sign_receipt,
}
use mandate_gateway.Receipt.Verifier.{Expected, ReceiptInput, verify}
use mandate_gateway.Receipt.Genuine.{IsBound, IsGenuine}
use mandate_gateway.Receipt.Verified.{valid_iff_IsGenuine}
use mandate_gateway.Receipt.RoundTrip.{requested, verify-sign_receipt}

abbrev strip_letter : String → Option String
strip_letter empty_text = none
strip_letter (text_cons l s) = some s

abbrev toy : Crypto
toy = record {
  PrivateKey = String;
  PublicKey = String;
  Bytes = String;
  public_key = λ k. k;
  sign = λ k message. some message;
  check_signature = λ k s message. str_eq s message;
  b64encode = λ s. text_cons "s" s;
  b64decode = strip_letter;
  fromhex = λ s. none;
  from_public_bytes = λ s. some s;
  digest = λ p. p.receipt_id;
}

sound : IsSound toy
sound = record {
  b64_round_trip = λ b. refl;
  signature_checks = λ k message s h. ground (arith, eq_iff s message);
  signature_nonempty = λ k message s h. refl;
}

abbrev request : SignRequest
request = record {
  transaction_id = "tx";
  mandate_id = "mandate";
  merchant_id = "shop";
  policy_version = pos 1;
  cart_hash = "0123456789abcdef0123456789abcdef0123456789abcdef0123456789abcdef";
  amount_paise = pos 500;
  currency = Currency.inr;
  decision = PolicyDecision.allow;
  execution_tool = some "create_order";
  execution_reference = none;
  audit_hash = none;
  authorized_at = none;
  executed_at = none;
  receipt_id = none;
}

abbrev nothing_expected : Expected
nothing_expected = record {
  transaction_id = none;
  mandate_id = none;
  merchant_id = none;
  amount_paise = some (pos 500);
  cart_hash = none;
  currency = none;
  decision = none;
}

abbrev event_digest : Canonical String → String
event_digest e = e.event_id

bound : IsBound (requested "r1" request (pos 5)) nothing_expected
bound = record {
  transaction_id = λ v e. absurd (ground arith);
  mandate_id = λ v e. absurd (ground arith);
  merchant_id = λ v e. absurd (ground arith);
  amount_paise = λ v e. ground arith;
  cart_hash = λ v e. absurd (ground arith);
  currency = λ v e. absurd (ground arith);
  decision = λ v e. absurd (ground arith);
}

verify-sign_receipt_example :
    (r : ActionReceipt) × (sign_receipt toy "key" "r1" request (pos 5) ≡ ok r)
    × (r.payload ≡ requested "r1" request (pos 5))
    × (r.executed_at ≡ request.executed_at)
    × (r.created_at ≡ pos 5)
    × (r.canonical_payload_hash ≡ toy.digest (requested "r1" request (pos 5)))
    × (r.signature ≡ some (toy.b64encode "r1"))
    × (let result =
          verify toy event_digest
            (ReceiptInput.receipt r)
            (KeyInput.object "key")
            nothing_expected
            none in
        result.is_valid ≡ true)
unfolding in_bounds text_length
verify-sign_receipt_example =
    verify-sign_receipt toy event_digest sound "key" "r1" request (pos 5) nothing_expected "r1" refl
      refl refl bound

abbrev receipt : ActionReceipt
receipt = record {
  payload = requested "r1" request (pos 5);
  executed_at = none;
  created_at = pos 5;
  canonical_payload_hash = "r2";
  signature = some "sr2";
}

valid_iff_IsGenuine_example :
    ((verify toy event_digest
        (ReceiptInput.receipt receipt)
        (KeyInput.text "key")
        nothing_expected
        none).is_valid
      ≡ true)
    ↔ IsGenuine toy event_digest receipt (KeyInput.text "key") nothing_expected none
valid_iff_IsGenuine_example =
    valid_iff_IsGenuine toy event_digest receipt (KeyInput.text "key") nothing_expected none
