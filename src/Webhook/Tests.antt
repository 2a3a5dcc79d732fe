-- ===== src/Webhook/Tests.antt =====
-- Deliveries at concrete inputs: a body is given as it is parsed, and every HMAC is "abc".
use mandate_gateway.Base.{String, ◌≡◌, refl, none, some, [], ◌∷◌, arith}
use mandate_gateway.Int.{pos}
use mandate_gateway.Dict.{lookup, insert}
use mandate_gateway.Text.{strip, lower, without_prefix}
use mandate_gateway.Types.{MandateStatus, TransactionState, can_transition_to, is_terminal_state}
use mandate_gateway.Webhook.{
  WebhookPayload, Entity, TransactionRow, Database, no_entity, payload_entity, target_state,
}
use mandate_gateway.Webhook.Engine.{Delivery, Codec, ingest, is_final_for_provider}
use mandate_gateway.Webhook.Authentic.{changed-Moves}
use mandate_gateway.Webhook.Effect.{Moves}
use mandate_gateway.Webhook.Settled.{ingest_all, settled_stays}

abbrev codec : Codec WebhookPayload
codec = record { hmac = λ p. "abc"; sha256 = λ p. "hash"; parse = λ p. some p }

abbrev about : String → Entity
about tx = record no_entity { notes_transaction_id = some tx; merchant_id = some "shop" }

abbrev event : String → String → Delivery WebhookPayload
event event_type tx = record {
  raw_payload = record {
    id = some "evt_1";
    event = some event_type;
    created_at = none;
    payment_entity = some (about tx);
    entity = none;
  };
  signature = some "sha256=ABC";
  event_id = none;
}

abbrev row_in : TransactionState → TransactionRow
row_in s = record { merchant_id = "shop"; mandate_id = "mandate"; buyer_id = "buyer"; state = s }

abbrev stored : TransactionState → Database
stored s = record {
  events = [];
  transactions = ("tx_1", row_in s) ∷ [];
  mandates = ("mandate", MandateStatus.active) ∷ [];
  audit = [];
}

captured :
    lookup "tx_1"
      (ingest codec
        (event "payment.captured" "tx_1")
        (pos 0)
        (stored TransactionState.executing)).1.transactions
    ≡ some (row_in TransactionState.committed)
unfolding ingest lookup strip lower without_prefix payload_entity target_state is_terminal_state
    can_transition_to insert
captured = refl

changed-Moves_example :
    Moves codec
      (event "payment.captured" "tx_1")
      (pos 0)
      (stored TransactionState.executing)
      "tx_1"
      (ingest codec (event "payment.captured" "tx_1") (pos 0) (stored TransactionState.executing)).1
unfolding lookup
changed-Moves_example =
    changed-Moves codec (event "payment.captured" "tx_1") (pos 0)
      (stored TransactionState.executing) "tx_1" (λ same. ground (arith, captured, same))

settled_stays_example :
    lookup "tx_1"
      (ingest_all codec
        ((event "payment.failed" "tx_1", pos 0) ∷ (event "payment.captured" "tx_1", pos 5) ∷ [])
        (stored TransactionState.committed)).transactions
    ≡ some (row_in TransactionState.committed)
unfolding lookup is_final_for_provider is_terminal_state
settled_stays_example =
    settled_stays codec "tx_1" (row_in TransactionState.committed) refl
      ((event "payment.failed" "tx_1", pos 0) ∷ (event "payment.captured" "tx_1", pos 5) ∷ [])
      (stored TransactionState.committed) refl
