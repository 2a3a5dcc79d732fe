-- ===== src/Webhook.antt =====
-- apps/api/domain/webhook_engine.py, with the parts of db/repository/webhook_repository.py,
-- db/repository/transaction_repository.py and db/repository/audit_repository.py that it calls, and
-- the ingestion of apps/api/routers/webhooks.py. The HMAC and the SHA-256 of the raw body and the
-- parsing of its JSON are parameters; the parsed body is taken to have its fields of the types that
-- the code expects. A delivery is one transaction of the database, so it is one step. Detail texts
-- and the hash chain of the stored audit events are not modelled.
pub mod Engine
pub mod Effect
pub mod Settled
pub mod Authentic
mod Tests
use mandate_gateway.Base.{
  ◌+◌, String, Bool, true, false, not, ◌&&◌, ◌||◌, Option, none, some, List, [], ◌∷◌, str_eq,
  get_or, if◌then◌else◌,
}
use mandate_gateway.Int.{ℤ, pos, negsuc, ◌-ℤ◌, ◌*ℤ◌, ltb_ℤ}
use mandate_gateway.Text.{strip, lower, is_empty, is_blank, without_prefix}
use mandate_gateway.Dict.{Dict}
use mandate_gateway.Clock.{Time}
use mandate_gateway.Types.{AuditEventType, MandateStatus, RejectionReason, TransactionState}

-- the entity of a payload: the fields that the engine reads, of which those of `notes` come first
pub record Entity : Type 0 where
  pub notes_transaction_id : Option String
  pub receipt : Option String
  pub description : Option String
  pub notes_merchant_id : Option String
  pub merchant_id : Option String

-- a parsed body; an empty entity counts as none
pub record WebhookPayload : Type 0 where
  pub id : Option String
  pub event : Option String
  pub created_at : Option ℤ
  pub payment_entity : Option Entity
  pub entity : Option Entity

-- the columns of a transaction that the engine reads and writes
pub record TransactionRow : Type 0 where
  pub merchant_id : String
  pub mandate_id : String
  pub buyer_id : String
  pub state : TransactionState

pub record WebhookEventRow : Type 0 where
  pub event_type : String
  pub transaction_id : String
  pub merchant_id : String
  pub payload_hash : String

pub record AuditRow : Type 0 where
  pub event_id : String
  pub event_type : AuditEventType
  pub transaction_id : String

pub record Database : Type 0 where
  pub events : Dict WebhookEventRow
  pub transactions : Dict TransactionRow
  pub mandates : Dict MandateStatus
  pub audit : List AuditRow

pub record WebhookProcessingResult : Type 0 where
  pub success : Bool
  pub event_id : String
  pub transaction_id : Option String
  pub state : Option TransactionState
  pub is_duplicate : Bool
  pub rejection_reason : Option RejectionReason

pub data WebhookError : Type 0 where
  empty_field transaction_not_found illegal_transition integrity : WebhookError

-- `a or b`, for optional texts
abbrev pub or_text : Option String → Option String → Option String
or_text none o = o
or_text (some s) o = if is_empty s then o else some s

-- `verify_signature`, with the HMAC of the raw body
unfoldable pub verify_webhook_signature : String → Option String → Bool
verify_webhook_signature computed none = false
verify_webhook_signature computed (some s) =
    if is_blank s
    then false
    else str_eq (lower computed) (lower (without_prefix "sha256=" (strip s)))

-- for a number of seconds, with the default bounds
unfoldable pub validate_timestamp : Option ℤ → Time → Bool
validate_timestamp none now = false
validate_timestamp (some seconds) now =
    let diff = now -ℤ seconds *ℤ pos 1_000_000 in
    if ltb_ℤ (pos 300_000_000) diff then false else not (ltb_ℤ diff (negsuc 59_999_999))

abbrev pub no_entity : Entity
no_entity = record {
  notes_transaction_id = none;
  receipt = none;
  description = none;
  notes_merchant_id = none;
  merchant_id = none;
}

unfoldable pub payload_entity : WebhookPayload → Entity
payload_entity p = elim p.payment_entity [ some e ↦ e | none ↦ get_or p.entity no_entity ]

unfoldable pub entity_transaction_id : Entity → String
entity_transaction_id e =
    strip (get_or (or_text e.notes_transaction_id (or_text e.receipt e.description)) "")

unfoldable pub entity_merchant_id : Entity → String
entity_merchant_id e = strip (get_or (or_text e.notes_merchant_id e.merchant_id) "")

unfoldable pub target_state : String → Option TransactionState
target_state event_type =
    if str_eq event_type "payment.authorized"
      || str_eq event_type "payment.captured"
      || str_eq event_type "order.paid"
    then some TransactionState.committed
    else if str_eq event_type "payment.failed" || str_eq event_type "order.failed"
    then some TransactionState.rolled_back
    else none

abbrev pub is_revoked : Option MandateStatus → Bool
is_revoked (some MandateStatus.revoked) = true
is_revoked _ = false
