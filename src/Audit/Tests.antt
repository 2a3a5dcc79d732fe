-- ===== src/Audit/Tests.antt =====
-- The audit ledger at concrete inputs: payloads are texts, and the digest of an event is its
-- identifier with a mark in front.
use mandate_gateway.Base.{String, ◌≡◌, ◌↔◌, refl, none, some, [], ◌∷◌, ok, arith, eq_iff}
use mandate_gateway.Int.{pos}
use mandate_gateway.Types.{AuditEventType}
use mandate_gateway.Audit.{
  Canonical, AuditEvent, AuditLedger, EventRequest, ChainStatus, Filters, genesis_hash,
  append_event, verify_chain, verify_from, verify_hash, query_events,
}
use mandate_gateway.Audit.Chain.{event_content, append_event-intact}
use mandate_gateway.Audit.Tamper.{CollisionFree, same_head-same_events}
use mandate_gateway.Audit.Query.{selected, limited, drop, query_selected}

abbrev digest : Canonical String → String
digest c = c.event_id

abbrev request : EventRequest String
request = record {
  event_type = AuditEventType.payment_started;
  transaction_id = some "tx";
  mandate_id = none;
  merchant_id = none;
  buyer_id = none;
  payload = none;
  at = none;
}

abbrev started : AuditEvent String
started = record {
  content = record {
    event_id = "e1";
    event_type = AuditEventType.payment_started;
    timestamp = pos 1;
    previous_hash = genesis_hash;
    transaction_id = some "tx";
    mandate_id = none;
    merchant_id = none;
    buyer_id = none;
    payload = "{}";
  };
  event_hash = "e1";
}

abbrev ledger : AuditLedger String
ledger = record { events = started ∷ []; head_hash = "e1" }

append_event-intact_example :
    let content = event_content "{}" "e2" "e1" request (pos 2) in
    let e : AuditEvent String = record { content = content; event_hash = digest content } in
    (append_event digest "{}" "e2" request (pos 2) ledger
      ≡ (ok e, record { events = started ∷ e ∷ []; head_hash = e.event_hash }))
    × ((verify_chain digest (append_event digest "{}" "e2" request (pos 2) ledger).1
          ≡ ChainStatus.intact)
        ↔ (verify_chain digest ledger ≡ ChainStatus.intact))
append_event-intact_example = append_event-intact digest "{}" "e2" request (pos 2) ledger

free : CollisionFree digest (started ∷ []) (started ∷ [])
free = record {
  distinct = λ e f he hf q. ground arith;
  left = λ e he q. ground (arith, eq_iff "e1" genesis_hash);
  right = λ e he q. ground (arith, eq_iff "e1" genesis_hash);
}

same_head-same_events_example : ledger.events ≡ started ∷ []
unfolding verify_chain verify_from verify_hash
same_head-same_events_example = same_head-same_events digest ledger ledger free refl refl refl

query_selected_example :
    let filters : Filters = record {
      transaction_id = some "tx";
      mandate_id = none;
      merchant_id = none;
      buyer_id = none;
      event_type = none;
    } in
    query_events filters (some (pos 0)) (pos 0) ledger
    ≡ limited (some (pos 0)) (drop 0 (selected filters (started ∷ [])))
query_selected_example = query_selected _ (pos 0) (some (pos 0)) ledger
