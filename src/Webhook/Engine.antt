-- ===== src/Webhook/Engine.antt =====
-- `WebhookEngine.async_process_webhook`, and the ingestion that commits or rolls it back.
use mandate_gateway.Base.{
  ℕ, ◌==◌, String, Bool, true, false, not, ◌&&◌, ◌||◌, Option, none, some, List, [], ◌∷◌, ◌++◌,
  str_eq, get_or, is_some, if◌then◌else◌, Result, ok, err, ◌>>=◌, ◌>>◌, Action,
}
use mandate_gateway.Text.{strip, is_empty, is_blank, take_text}
use mandate_gateway.Dict.{lookup, insert, contains}
use mandate_gateway.Clock.{Time}
use mandate_gateway.Types.{
  AuditEventType, RejectionReason, TransactionState, can_transition_to, is_terminal_state, state_in,
  state_tag,
}
use mandate_gateway.Webhook.{
  WebhookPayload, TransactionRow, WebhookEventRow, AuditRow, Database, WebhookProcessingResult,
  WebhookError, or_text, verify_webhook_signature, validate_timestamp, payload_entity,
  entity_transaction_id, entity_merchant_id, target_state, is_revoked,
}

abbrev pub Processing : Type 0
Processing = Action Database WebhookError WebhookProcessingResult

abbrev pub not_processed :
    String → Option String → Option TransactionState → RejectionReason → WebhookProcessingResult
not_processed event_id tx state reason = record {
  success = false;
  event_id = event_id;
  transaction_id = tx;
  state = state;
  is_duplicate = false;
  rejection_reason = some reason;
}

abbrev pub processed : String → String → Option TransactionState → Bool → WebhookProcessingResult
processed event_id tx state duplicate = record {
  success = true;
  event_id = event_id;
  transaction_id = some tx;
  state = state;
  is_duplicate = duplicate;
  rejection_reason = none;
}

-- `TransactionRepository.transition_transaction_state`
unfoldable pub transition_transaction_state :
    String → TransactionState → Database → Result WebhookError Unit × Database
transition_transaction_state tx target db = elim (lookup tx db.transactions) [
  | none ↦ (err WebhookError.transaction_not_found, db)
  | some row ↦
      if is_terminal_state row.state || not (can_transition_to row.state target)
      then (err WebhookError.illegal_transition, db)
      else (
        ok tt,
        record db { transactions = insert tx (record row { state = target }) db.transactions },
      )
]

-- an event of this identifier is stored
unfoldable pub audited : String → List AuditRow → Bool
audited id [] = false
audited id (r ∷ rs) = str_eq id r.event_id || audited id rs

-- `f"evt_wh_{event_id[:16]}"`, without its fixed prefix, which makes no difference between two
abbrev pub audit_id : String → String
audit_id event_id = take_text 16 event_id

abbrev pub outcome_type : TransactionState → AuditEventType
outcome_type TransactionState.committed = AuditEventType.payment_success
outcome_type _ = AuditEventType.payment_failed

-- the audit event, whose identifier is a primary key, and the answer
unfoldable pub logged : String → String → TransactionState → Processing
unfolding audited
logged event_id tx target db =
    if audited (audit_id event_id) db.audit then (err WebhookError.integrity, db) else (
      ok (processed event_id tx (some target) false),
      record db {
        audit =
            db.audit
            ++ record {
              event_id = audit_id event_id;
              event_type = outcome_type target;
              transaction_id = tx;
            }
              ∷ [];
      },
    )

-- the transition and the audit event
unfoldable pub apply_transition : String → String → TransactionState → Processing
unfolding transition_transaction_state logged
apply_transition event_id tx target =
    transition_transaction_state tx target >> logged event_id tx target

-- a state that no event of the provider changes
unfoldable pub is_final_for_provider : TransactionState → Bool
is_final_for_provider s =
    is_terminal_state s
    || state_in s (TransactionState.committed ∷ TransactionState.rolled_back ∷ [])

-- Control 6
unfoldable pub apply_event : String → String → TransactionRow → Option TransactionState → Processing
unfolding apply_transition is_final_for_provider
apply_event event_id tx row none db = (ok (processed event_id tx (some row.state) false), db)
apply_event event_id tx row (some target) db =
    if is_final_for_provider row.state
    then (
      ok (
          if state_tag row.state == state_tag target
          then processed event_id tx (some row.state) false
          else not_processed event_id (some tx) (some row.state)
              RejectionReason.invalid_transaction_state),
      db,
    )
    else apply_transition event_id tx target db

-- Control 5, with the check of the mandate
unfoldable pub bound_event : String → String → String → String → Processing
unfolding apply_event
bound_event event_id event_type tx merchant db = elim (lookup tx db.transactions) [
  | none ↦
      (ok (not_processed event_id (some tx) none RejectionReason.invalid_transaction_state), db)
  | some row ↦
      if not (is_empty merchant) && not (str_eq row.merchant_id merchant)
      then (ok (not_processed event_id (some tx) none RejectionReason.merchant_mismatch), db)
      else if is_revoked (lookup row.mandate_id db.mandates)
      then (
        ok (not_processed event_id (some tx) (some row.state) RejectionReason.mandate_not_active),
        db,
      )
      else apply_event event_id tx row (target_state event_type) db
]

-- `WebhookRepository.register_event`: whether the event is a duplicate
unfoldable pub register_event :
    String → WebhookEventRow → Database → Result WebhookError Bool × Database
register_event event_id row db =
    if is_blank event_id || is_blank row.transaction_id || is_blank row.merchant_id
    then (err WebhookError.empty_field, db)
    else if contains (strip event_id) db.events
    then (ok true, db)
    else (
      ok false,
      record db {
        events =
            insert (strip event_id)
              (record {
                event_type = strip row.event_type;
                transaction_id = strip row.transaction_id;
                merchant_id = strip row.merchant_id;
                payload_hash = strip row.payload_hash;
              })
              db.events;
      },
    )

-- Control 4, and what follows it
unfoldable pub registered_event : String → WebhookEventRow → String → Processing
unfolding register_event bound_event
registered_event event_id row merchant = do
  duplicate ← register_event event_id row
  λ db.
      if duplicate
      then (ok (processed event_id row.transaction_id none true), db)
      else bound_event event_id row.event_type row.transaction_id merchant db

-- a request: its raw body and its two headers
pub record Delivery (Raw : Type 0) : Type 0 where
  pub raw_payload : Raw
  pub signature : Option String
  pub event_id : Option String

-- the HMAC with the provider's secret, the SHA-256 in hexadecimal, and the parsing of JSON
pub record Codec (Raw : Type 0) : Type 0 where
  pub hmac : Raw → String
  pub sha256 : Raw → String
  pub parse : Raw → Option WebhookPayload

-- what the request is answered
pub data Response : Type 0 where
  answered : WebhookProcessingResult → Response
  http_exception : ℕ → Response
  failed : WebhookError → Response

abbrev pub status_code : WebhookProcessingResult → ℕ
status_code result = elim result.rejection_reason [
  | some RejectionReason.method_not_authorized ↦ 401
  | _ ↦ 400
]

-- what stays of a run: only a success is committed
abbrev pub kept : Database → Result WebhookError WebhookProcessingResult → Database → Database
kept before (ok result) after = if result.success then after else before
kept before (err x) after = before

abbrev pub response : Result WebhookError WebhookProcessingResult → Response
response (ok result) =
    if result.success
    then Response.answered result
    else Response.http_exception (status_code result)
response (err x) = Response.failed x

module _ {Raw : Type 0} (c : Codec Raw) where
  unfoldable pub event_identity : Delivery Raw → WebhookPayload → String
  event_identity d p = strip (get_or (or_text d.event_id p.id) "")

  -- Controls 3 and 4, of a body that is parsed
  unfoldable pub parsed_event : Delivery Raw → WebhookPayload → Time → Processing
  unfolding registered_event event_identity entity_transaction_id entity_merchant_id
  parsed_event d p now db =
      let event_id = event_identity d p in
      let tx = entity_transaction_id (payload_entity p) in
      let merchant = entity_merchant_id (payload_entity p) in
      if is_empty event_id
      then (
        ok (not_processed "missing_event_id" none none RejectionReason.method_not_authorized),
        db,
      )
      else if is_some p.created_at && not (validate_timestamp p.created_at now)
      then (ok (not_processed event_id none none RejectionReason.authorization_expired), db)
      else if is_empty tx
      then (ok (not_processed event_id none none RejectionReason.invalid_transaction_state), db)
      else registered_event event_id
          (record {
            event_type = strip (get_or p.event "payment.unknown");
            transaction_id = tx;
            merchant_id = if is_empty merchant then "mer_default" else merchant;
            payload_hash = c.sha256 d.raw_payload;
          })
          merchant db

  abbrev pub unknown_event : Delivery Raw → WebhookProcessingResult
  unknown_event d =
      not_processed (get_or (or_text d.event_id none) "unknown_event") none none
        RejectionReason.method_not_authorized

  unfoldable pub async_process_webhook : Delivery Raw → Time → Processing
  unfolding parsed_event verify_webhook_signature
  async_process_webhook d now db =
      if not (verify_webhook_signature (c.hmac d.raw_payload) d.signature)
      then (ok (unknown_event d), db)
      else elim (c.parse d.raw_payload) [
        | none ↦ (ok (unknown_event d), db)
        | some p ↦ parsed_event d p now db
      ]

  -- the route that receives the provider's notifications
  unfoldable pub ingest : Delivery Raw → Time → Database → Response × Database
  unfolding async_process_webhook
  ingest d now db = let (r, after) = async_process_webhook d now db in (response r, kept db r after)
