-- ===== src/Webhook/Authentic.antt =====
-- What a delivery can change.
use mathlib.Core.Path.{subst}
use mandate_gateway.Base.{
  ap, sym, ◌∙◌, String, ◌≡◌, refl, ◌≢◌, ◌⊎◌, inl, inr, true, false, not, ◌&&◌, ◌||◌, Option, none,
  some, arith, err, Bool-cases, Option-cases, is_some,
}
use mandate_gateway.Text.{strip, is_empty, is_blank}
use mandate_gateway.Dict.{Dict, lookup, contains, lookup-insert_self}
use mandate_gateway.Clock.{Time}
use mandate_gateway.Types.{TransactionState}
use mandate_gateway.Webhook.{
  WebhookPayload, TransactionRow, WebhookEventRow, Database, WebhookError, verify_webhook_signature,
  validate_timestamp, payload_entity, entity_transaction_id, entity_merchant_id, target_state,
  is_revoked,
}
use mandate_gateway.Webhook.Engine.{
  is_final_for_provider, apply_event, bound_event, register_event, registered_event, Delivery,
  Codec, event_identity, parsed_event, async_process_webhook, ingest,
}
use mandate_gateway.Webhook.Effect.{
  Moves, StaysOrMoves, IsMerchantOf, event_type_of, stays, unchanged, guarded, transition_lem,
}

module _ {Raw : Type 0} (c : Codec Raw) (d : Delivery Raw) (now : Time) (before : Database)
    (key : String) where
  module _ (p : WebhookPayload)
      (signed : verify_webhook_signature (c.hmac d.raw_payload) d.signature ≡ true)
      (parsed : c.parse d.raw_payload ≡ some p)
      (timely : (is_some p.created_at && not (validate_timestamp p.created_at now)) ≡ false)
      (fresh : lookup (strip (event_identity c d p)) before.events ≡ none)
      (es : Dict WebhookEventRow)
      (kept : is_some (lookup (strip (event_identity c d p)) es) ≡ true) where
    abbrev tx : String
    tx = entity_transaction_id (payload_entity p)

    event_lem :
        (id : String) (row : TransactionRow) (t : Option TransactionState)
        → target_state (event_type_of p) ≡ t
        → lookup tx before.transactions ≡ some row
        → IsMerchantOf (entity_merchant_id (payload_entity p)) row
        → is_revoked (lookup row.mandate_id before.mandates) ≡ false
        → StaysOrMoves c d now before key (apply_event id tx row t (record before { events = es }))
    unfolding apply_event Moves
    event_lem id row none e found merchant live = unchanged c d now before key _ _ refl
    event_lem id row (some target) e found merchant live =
        guarded c d now before key (is_final_for_provider row.state) _ _
          (unchanged c d now before key _ _ refl)
          (λ unsettled.
            transition_lem c d now before key id tx row target es found
              (λ same legal after reads events. (
                p,
                row,
                target,
                signed,
                parsed,
                timely,
                fresh,
                ap (λ x. is_some (lookup (strip (event_identity c d p)) x)) events ∙ kept,
                same,
                subst (λ k. lookup k before.transactions ≡ some row) same found,
                merchant,
                live,
                e,
                unsettled,
                legal,
                reads,
              )))

    bound_lem :
        (id event_type : String)
        → event_type ≡ event_type_of p
        → StaysOrMoves c d now before key (
            bound_event id event_type tx
              (entity_merchant_id (payload_entity p))
              (record before { events = es }))
    unfolding bound_event
    bound_lem id event_type e = elim (Option-cases (lookup tx before.transactions)) [
      | inl none' ↦ rw (none', bound_event) (unchanged c d now before key _ _ refl)
      | inr (row, found) ↦
          rw (found, bound_event)
            (guarded c d now before key _ _ _ (unchanged c d now before key _ _ refl) (λ merchant.
              guarded c d now before key (is_revoked (lookup row.mandate_id before.mandates)) _ _
                (unchanged c d now before key _ _ refl)
                (λ live.
                  event_lem id row (target_state event_type) (ap target_state (sym e)) found
                    merchant live)))
    ]

  registered_lem :
      (p : WebhookPayload)
      → verify_webhook_signature (c.hmac d.raw_payload) d.signature ≡ true
      → c.parse d.raw_payload ≡ some p
      → (is_some p.created_at && not (validate_timestamp p.created_at now)) ≡ false
      → (row : WebhookEventRow) → row.event_type ≡ event_type_of p
      → row.transaction_id ≡ entity_transaction_id (payload_entity p)
      → StaysOrMoves c d now before key (
          registered_event
            (event_identity c d p)
            row
            (entity_merchant_id (payload_entity p))
            before)
  unfolding registered_event register_event
  registered_lem p signed parsed timely row types names =
      let id = event_identity c d p in
      elim (Bool-cases (is_blank id || is_blank row.transaction_id || is_blank row.merchant_id)) [
        | inl blank ↦
            rw (blank, registered_event, register_event)
              (stays c d now before key (err WebhookError.empty_field, _) refl)
        | inr filled ↦
            rw (filled, registered_event, register_event)
              (elim (Option-cases (lookup (strip id) before.events)) [
                | inr (e, known) ↦ rw (known, contains) (unchanged c d now before key _ _ refl)
                | inl fresh ↦
                    rw (fresh, names)
                      (bound_lem p signed parsed timely fresh _
                        (ap is_some (lookup-insert_self (strip id) _ before.events)) id
                        row.event_type types)
              ])
      ]

  parsed_lem :
      (p : WebhookPayload)
      → verify_webhook_signature (c.hmac d.raw_payload) d.signature ≡ true
      → c.parse d.raw_payload ≡ some p
      → StaysOrMoves c d now before key (parsed_event c d p now before)
  unfolding parsed_event
  parsed_lem p signed parsed =
      guarded c d now before key (is_empty (event_identity c d p)) _ _
        (unchanged c d now before key _ _ refl)
        (λ _.
          guarded c d now before key
            (is_some p.created_at && not (validate_timestamp p.created_at now)) _ _
            (unchanged c d now before key _ _ refl)
            (λ timely.
              guarded c d now before key (is_empty (entity_transaction_id (payload_entity p))) _ _
                (unchanged c d now before key _ _ refl)
                (λ _. registered_lem p signed parsed timely _ refl refl)))

  process_lem : StaysOrMoves c d now before key (async_process_webhook c d now before)
  unfolding async_process_webhook
  process_lem =
      guarded c d now before key (not (verify_webhook_signature (c.hmac d.raw_payload) d.signature))
        _ _ (unchanged c d now before key _ _ refl)
        (λ signed. elim (Option-cases (c.parse d.raw_payload)) [
          | inl malformed ↦ rw malformed (unchanged c d now before key _ _ refl)
          | inr (p, parsed) ↦ rw parsed (parsed_lem p (ground (arith, signed)) parsed)
        ])

  pub delivery_effect :
      (lookup key (ingest c d now before).1.transactions ≡ lookup key before.transactions)
      ⊎ Moves c d now before key (ingest c d now before).1
  unfolding ingest StaysOrMoves
  delivery_effect = process_lem

  -- A delivery to the webhook route that changes what is stored of a transaction was signed, was
  -- parsed, is not stale, and is an event that was not registered before and is so afterwards; the
  -- transaction is the one that the event names, it was stored, it belongs to the merchant that the
  -- event names if it names one, and its mandate is not revoked; it was neither terminal, committed
  -- nor rolled back; and nothing but its state is changed, by a legal transition to the state of the
  -- event's type.
  pub changed-Moves :
      lookup key (ingest c d now before).1.transactions ≢ lookup key before.transactions
      → Moves c d now before key (ingest c d now before).1
  changed-Moves changed = elim delivery_effect [
    | inl same ↦ absurd (changed same)
    | inr moves ↦ moves
  ]
