-- ===== src/Audit.antt =====
-- apps/api/domain/audit.py and apps/api/domain/audit_ledger.py, its in-memory part: events, each of
-- which carries the hash of the one before it, and the ledger that they are appended to. `P` is the
-- type of the payloads, a dict of any values, and `digest` the SHA-256 of the canonical JSON object
-- of the fields of an event; both are parameters. Error texts are not modelled. The ledger's lock
-- makes every method one step.
pub mod Chain
pub mod Tamper
pub mod Query
mod Tests
use mandate_gateway.Base.{
  ℕ, suc, ◌+◌, ◌-◌, String, Bool, true, false, not, ◌&&◌, Option, none, some, List, [], ◌∷◌, ◌++◌,
  ◌==◌, str_eq, get_or, length, if◌then◌else◌, Result, ok, err, Action,
}
use mathlib.Core.List.{reverse}
use mandate_gateway.Int.{ℤ, pos, ltb_ℤ, leb_ℤ}
use mandate_gateway.Clock.{Time, time_or_now}
use mandate_gateway.Types.{AuditEventType, event_type_tag}

abbrev pub genesis_hash : String
genesis_hash = "0000000000000000000000000000000000000000000000000000000000000000"

-- what the hash of an event is computed from
pub record Canonical (P : Type 0) : Type 0 where
  pub event_id : String
  pub event_type : AuditEventType
  pub timestamp : Time
  pub previous_hash : String
  pub transaction_id : Option String
  pub mandate_id : Option String
  pub merchant_id : Option String
  pub buyer_id : Option String
  pub payload : P

-- an event: those fields, and its hash
pub record AuditEvent (P : Type 0) : Type 0 where
  pub content : Canonical P
  pub event_hash : String

-- the arguments of an event that is to be appended
pub record EventRequest (P : Type 0) : Type 0 where
  pub event_type : AuditEventType
  pub transaction_id : Option String
  pub mandate_id : Option String
  pub merchant_id : Option String
  pub buyer_id : Option String
  pub payload : Option P
  pub at : Option Time

pub record AuditLedger (P : Type 0) : Type 0 where
  pub events : List (AuditEvent P)
  pub head_hash : String

-- What `verify_chain` answers: that the chain is intact, or the first fault, with the index of the
-- event.
pub data ChainStatus : Type 0 where
  intact : ChainStatus
  empty_head_differs : ChainStatus
  chain_broken : ℕ → ChainStatus
  hash_invalid : ℕ → ChainStatus
  head_differs : ChainStatus

pub data LedgerError : Type 0 where
  self_verification : LedgerError
  chain_tampered : ChainStatus → LedgerError

module _ {P : Type 0} where
  unfoldable pub new_ledger : AuditLedger P
  new_ledger = record { events = []; head_hash = genesis_hash }

  -- `AuditEvent.verify_hash`
  unfoldable pub verify_hash : (Canonical P → String) → AuditEvent P → Bool
  verify_hash digest e = str_eq e.event_hash (digest e.content)

  -- `AuditEvent.create`; `no_payload` is the empty dict
  unfoldable pub create :
      (Canonical P → String) → P → String → String → EventRequest P → Time → AuditEvent P
  create digest no_payload uuid previous r now =
      let content : Canonical P = record {
        event_id = uuid;
        event_type = r.event_type;
        timestamp = time_or_now r.at now;
        previous_hash = previous;
        transaction_id = r.transaction_id;
        mandate_id = r.mandate_id;
        merchant_id = r.merchant_id;
        buyer_id = r.buyer_id;
        payload = get_or r.payload no_payload;
      } in
      record { content = content; event_hash = digest content }

  unfoldable pub append_event :
      (Canonical P → String)
      → P
      → String
      → EventRequest P
      → Time
      → Action (AuditLedger P) LedgerError (AuditEvent P)
  unfolding create verify_hash
  append_event digest no_payload uuid r now l =
      let e = create digest no_payload uuid l.head_hash r now in
      if not (verify_hash digest e)
      then (err LedgerError.self_verification, l)
      else (ok e, record { events = l.events ++ e ∷ []; head_hash = e.event_hash })

  -- the loop of `verify_chain`, from the event at `index`
  unfoldable pub verify_from :
      (Canonical P → String) → String → ℕ → String → List (AuditEvent P) → ChainStatus
  unfolding verify_hash
  verify_from digest head index expected [] =
      if not (str_eq head expected) then ChainStatus.head_differs else ChainStatus.intact
  verify_from digest head index expected (e ∷ es) =
      let rest = verify_from digest head (index + 1) e.event_hash es in
      if not (str_eq e.content.previous_hash expected)
      then ChainStatus.chain_broken index
      else if not (verify_hash digest e)
      then ChainStatus.hash_invalid index
      else rest

  unfoldable pub verify_chain : (Canonical P → String) → AuditLedger P → ChainStatus
  unfolding verify_from
  verify_chain digest l = elim l.events [
    | [] ↦
        if not (str_eq l.head_hash genesis_hash)
        then ChainStatus.empty_head_differs
        else ChainStatus.intact
    | e ∷ es ↦ verify_from digest l.head_hash 0 genesis_hash (e ∷ es)
  ]

  unfoldable pub assert_chain_valid :
      (Canonical P → String) → AuditLedger P → Result LedgerError Unit
  unfolding verify_chain
  assert_chain_valid digest l = elim (verify_chain digest l) [
    | ChainStatus.intact ↦ ok tt
    | fault ↦ err (LedgerError.chain_tampered fault)
  ]

-- the filters of a query
pub record Filters : Type 0 where
  pub transaction_id : Option String
  pub mandate_id : Option String
  pub merchant_id : Option String
  pub buyer_id : Option String
  pub event_type : Option AuditEventType

-- a filter that is not given, or a field that equals it
unfoldable pub field_matches : Option String → Option String → Bool
field_matches none given = true
field_matches (some wanted) none = false
field_matches (some wanted) (some given) = str_eq given wanted

unfoldable pub type_matches : Option AuditEventType → AuditEventType → Bool
type_matches none given = true
type_matches (some wanted) given = event_type_tag given == event_type_tag wanted

module _ {P : Type 0} where
  -- the filters of one event, in the code's order
  unfoldable pub matches : Filters → AuditEvent P → Bool
  unfolding field_matches type_matches
  matches f e =
      field_matches f.transaction_id e.content.transaction_id
      && field_matches f.mandate_id e.content.mandate_id
      && field_matches f.merchant_id e.content.merchant_id
      && field_matches f.buyer_id e.content.buyer_id
      && type_matches f.event_type e.content.event_type

  -- `limit is not None and len(results) >= limit`
  unfoldable pub reached : Option ℤ → List (AuditEvent P) → Bool
  reached none results = false
  reached (some limit) results = leb_ℤ limit (pos (length results))

  -- the loop of `query_events`
  unfoldable pub query_from :
      Filters → Option ℤ → ℤ → ℕ → List (AuditEvent P) → List (AuditEvent P) → List (AuditEvent P)
  unfolding matches reached
  query_from f limit offset skipped results [] = results
  query_from f limit offset skipped results (e ∷ es) = elim (matches f e) [
    | false ↦ query_from f limit offset skipped results es
    | true ↦ elim (ltb_ℤ (pos skipped) offset) [
      | true ↦ query_from f limit offset (skipped + 1) results es
      | false ↦ elim (reached limit (results ++ e ∷ [])) [
        | true ↦ results ++ e ∷ []
        | false ↦ query_from f limit offset skipped (results ++ e ∷ []) es
      ]
    ]
  ]

  unfoldable pub query_events : Filters → Option ℤ → ℤ → AuditLedger P → List (AuditEvent P)
  unfolding query_from
  query_events f limit offset l = query_from f limit offset 0 [] l.events

  -- the first of the events that is about the transaction
  unfoldable pub first_for : String → List (AuditEvent P) → Option (AuditEvent P)
  first_for tx [] = none
  first_for tx (e ∷ es) =
      if field_matches (some tx) e.content.transaction_id then some e else first_for tx es

  unfoldable pub get_latest_event_for_transaction : String → AuditLedger P → Option (AuditEvent P)
  unfolding first_for
  get_latest_event_for_transaction tx l = first_for tx (reverse l.events)

  unfoldable pub count : AuditLedger P → ℕ
  count l = length l.events

  unfoldable pub clear : AuditLedger P → AuditLedger P
  unfolding new_ledger
  clear l = new_ledger
