-- ===== src/Webhook/Effect.antt =====
-- The effect of a run of the webhook engine on one transaction: none, or a genuine move.
use mandate_gateway.Base.{
  ap, get_or, String, ◌≡◌, refl, ◌⊎◌, inl, inr, Bool, true, false, not, ◌&&◌, ◌||◌, none, some,
  arith, if◌then◌else◌, Result, ok, err, Bool-cases, str_eq, eq_iff, is_some,
}
use mandate_gateway.Text.{strip, is_empty}
use mandate_gateway.Dict.{Dict, lookup, insert, lookup-insert}
use mandate_gateway.Clock.{Time}
use mandate_gateway.Types.{TransactionState, is_terminal_state, can_transition_to}
use mandate_gateway.Webhook.{
  WebhookPayload, TransactionRow, WebhookEventRow, Database, WebhookProcessingResult, WebhookError,
  verify_webhook_signature, validate_timestamp, payload_entity, entity_transaction_id,
  entity_merchant_id, target_state, is_revoked,
}
use mandate_gateway.Webhook.Engine.{
  processed, logged, transition_transaction_state, audited, audit_id, apply_transition,
  is_final_for_provider, Delivery, Codec, kept, event_identity,
}

-- what a run hands back, and the database as it is committed
abbrev pub Out : Type 0
Out = Result WebhookError WebhookProcessingResult × Database

abbrev pub committed : Database → Out → Database
committed before (r, after) = kept before r after

-- the merchant that the event names, if it names one
abbrev pub IsMerchantOf : String → TransactionRow → Type 0
IsMerchantOf merchant row = not (is_empty merchant) && not (str_eq row.merchant_id merchant) ≡ false

module _ (tx : String) (row : TransactionRow) (target : TransactionState) (db : Database)
    (found : lookup tx db.transactions ≡ some row) where
  transition_refused :
      (is_terminal_state row.state || not (can_transition_to row.state target)) ≡ true
      → transition_transaction_state tx target db ≡ (err WebhookError.illegal_transition, db)
  unfolding transition_transaction_state
  transition_refused stop = rw (found, stop, transition_transaction_state) refl

  transition_done :
      (is_terminal_state row.state || not (can_transition_to row.state target)) ≡ false
      → transition_transaction_state tx target db ≡ (
        ok tt,
        record db { transactions = insert tx (record row { state = target }) db.transactions },
      )
  unfolding transition_transaction_state
  transition_done go = rw (found, go, transition_transaction_state) refl

-- the type that the code reads from a body
abbrev pub event_type_of : WebhookPayload → String
event_type_of p = strip (get_or p.event "payment.unknown")

module _ {Raw : Type 0} (c : Codec Raw) (d : Delivery Raw) (now : Time) (before : Database)
    (key : String) where
  -- A genuine, new event of the provider moves the transaction of this identifier by a legal
  -- transition to the state of its type.
  unfoldable pub Moves : Database → Type 0
  Moves after =
      (p : WebhookPayload) × (row : TransactionRow) × (target : TransactionState)
      × (verify_webhook_signature (c.hmac d.raw_payload) d.signature ≡ true)
      × (c.parse d.raw_payload ≡ some p)
      × ((is_some p.created_at && not (validate_timestamp p.created_at now)) ≡ false)
      × (lookup (strip (event_identity c d p)) before.events ≡ none)
      × (is_some (lookup (strip (event_identity c d p)) after.events) ≡ true)
      × (entity_transaction_id (payload_entity p) ≡ key)
      × (lookup key before.transactions ≡ some row)
      × IsMerchantOf (entity_merchant_id (payload_entity p)) row
      × (is_revoked (lookup row.mandate_id before.mandates) ≡ false)
      × (target_state (event_type_of p) ≡ some target)
      × (is_final_for_provider row.state ≡ false)
      × (can_transition_to row.state target ≡ true)
      × (lookup key after.transactions ≡ some (record row { state = target }))

  -- The transaction of this identifier stays as it is or moves.
  unfoldable pub StaysOrMoves : Out → Type 0
  StaysOrMoves x =
      (lookup key (committed before x).transactions ≡ lookup key before.transactions)
      ⊎ Moves (committed before x)

  pub stays : (x : Out) → (committed before x).transactions ≡ before.transactions → StaysOrMoves x
  unfolding StaysOrMoves
  stays x e = inl (ap (lookup key) e)

  pub unchanged :
      (result : WebhookProcessingResult) (x : Database)
      → x.transactions ≡ before.transactions
      → StaysOrMoves (ok result, x)
  unchanged result x e = elim (Bool-cases result.success) [
    | inl s ↦ stays (ok result, x) (rw (s, committed) e)
    | inr f ↦ stays (ok result, x) (rw (f, committed) refl)
  ]

  pub guarded :
      (b : Bool) (x y : Out)
      → StaysOrMoves x
      → (b ≡ false → StaysOrMoves y)
      → StaysOrMoves (if b then x else y)
  guarded true x y s k = s
  guarded false x y s k = k refl

  -- A write of one transaction reaches that one only.
  written :
      (tx : String) (row : TransactionRow) (result : WebhookProcessingResult) (x : Database)
      → result.success ≡ true
      → x.transactions ≡ insert tx row before.transactions
      → (tx ≡ key → lookup key x.transactions ≡ some row → Moves x)
      → StaysOrMoves (ok result, x)
  unfolding StaysOrMoves
  written tx row result x success e k =
      let reads = lookup-insert tx key row before.transactions in
      rw (success, committed)
        (elim (Bool-cases (str_eq key tx)) [
          | inl same ↦
              inr (k (ground (arith, eq_iff key tx, same)) (ground (arith, e, reads, same)))
          | inr other ↦ inl (ground (arith, e, reads, other))
        ])

  logged_lem :
      (id tx : String) (row : TransactionRow) (target : TransactionState) (db : Database)
      (es : Dict WebhookEventRow)
      → db.transactions ≡ insert tx row before.transactions
      → db.events ≡ es
      → ((tx ≡ key)
          → (after : Database) → lookup key after.transactions ≡ some row
          → after.events ≡ es
          → Moves after)
      → StaysOrMoves (logged id tx target db)
  unfolding logged
  logged_lem id tx row target db es e f moves =
      guarded (audited (audit_id id) db.audit) _ _ (stays (err WebhookError.integrity, db) refl)
        (λ _.
          written tx row (processed id tx (some target) false) _ refl e
            (λ same reads. moves same _ reads f))

  pub transition_lem :
      (id tx : String) (row : TransactionRow) (target : TransactionState)
      (es : Dict WebhookEventRow)
      → lookup tx before.transactions ≡ some row
      → ((tx ≡ key)
          → (can_transition_to row.state target ≡ true)
          → (after : Database)
          → lookup key after.transactions ≡ some (record row { state = target })
          → after.events ≡ es
          → Moves after)
      → StaysOrMoves (apply_transition id tx target (record before { events = es }))
  unfolding apply_transition
  transition_lem id tx row target es found moves =
      elim (Bool-cases (is_terminal_state row.state || not (can_transition_to row.state target))) [
        | inl stop ↦
            rw
              (
                transition_refused tx row target (record before { events = es }) found stop,
                apply_transition,
              )
              (stays (err WebhookError.illegal_transition, _) refl)
        | inr go ↦
            rw
              (
                transition_done tx row target (record before { events = es }) found go,
                apply_transition,
              )
              (logged_lem id tx (record row { state = target }) target _ es refl refl
                (λ same. moves same (ground (arith, go))))
      ]
