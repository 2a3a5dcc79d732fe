-- ===== src/Nonce/Decision.antt =====
-- When `validate_and_consume` accepts a nonce, and what it leaves.
use mandate_gateway.Base.{
  String, ◌≡◌, ◌↔◌, inl, inr, true, false, Option, none, some, arith, eq_iff, Option-cases, ok,
}
use mandate_gateway.Int.{ℤ, ◌≤ℤ◌, ◌<ℤ◌}
use mandate_gateway.Text.{strip, is_empty}
use mandate_gateway.Dict.{lookup, insert, lookup-insert_self}
use mandate_gateway.Clock.{Time, time_or_now, add_seconds}
use mandate_gateway.Types.{NonceState}
use mandate_gateway.Nonce.{
  NonceRecord, NonceEngine, validate_and_consume, refusal, refused, consumed_record, issue_nonce,
  nonce_record,
}

-- Record `r` may be consumed for the given mandate and transaction at time `t`.
pub record CanConsume (r : NonceRecord) (m tx : String) (t : Time) : Type 0 where
  pub mandate : r.mandate_id ≡ strip m
  pub transaction : r.transaction_id ≡ strip tx
  pub state : r.state ≡ NonceState.issued
  pub issued : r.issued_at ≤ℤ t
  pub alive : t <ℤ r.expires_at

refusal_iff :
    (r : NonceRecord) (m tx : String) (t : Time) → (refusal r m tx t ≡ none) ↔ CanConsume r m tx t
unfolding refusal
refusal_iff r m tx t = (
  λ h. record {
    mandate = ground (arith, eq_iff r.mandate_id (strip m));
    transaction = ground (arith, eq_iff r.transaction_id (strip tx));
    state = ground arith;
    issued = ground arith;
    alive = ground arith;
  },
  λ c. ground (arith, eq_iff r.mandate_id (strip m), eq_iff r.transaction_id (strip tx)),
)

module _ (value m tx : String) (at : Option Time) (now : Time) (e : NonceEngine) where
  -- A stored nonce that may be consumed is accepted, and becomes consumed, the rest as it was.
  pub consume_accepts :
      (r : NonceRecord)
      → is_empty (strip value) ≡ false
      → lookup (strip value) e.records ≡ some r
      → CanConsume r m tx (time_or_now at now)
      → ((validate_and_consume value m tx at now e).0.valid ≡ true)
        × ((validate_and_consume value m tx at now e).1 ≡ record {
          records = insert (strip value) (consumed_record r (time_or_now at now)) e.records;
        })
  unfolding validate_and_consume
  consume_accepts r some_text found c =
      let why = (refusal_iff r m tx (time_or_now at now)).1 c in (ground arith, ground arith)

  consume_only_if :
      (validate_and_consume value m tx at now e).0.valid ≡ true
      → (r : NonceRecord) × (is_empty (strip value) ≡ false)
        × (lookup (strip value) e.records ≡ some r)
        × CanConsume r m tx (time_or_now at now)
  unfolding validate_and_consume refused
  consume_only_if h = elim (Option-cases (lookup (strip value) e.records)) [
    | inl missing ↦ absurd (ground arith)
    | inr (r, found) ↦
        (r, ground arith, found, (refusal_iff r m tx (time_or_now at now)).0 (ground arith))
  ]

  -- A nonce is accepted exactly if its text is not blank and it is stored, bound to the mandate and
  -- the transaction, issued, and in its time window; a refusal changes nothing.
  pub consume_decision :
      (((validate_and_consume value m tx at now e).0.valid ≡ true) ↔ (
        (r : NonceRecord) × (is_empty (strip value) ≡ false)
        × (lookup (strip value) e.records ≡ some r)
        × CanConsume r m tx (time_or_now at now)))
      × ((validate_and_consume value m tx at now e).0.valid ≡ false
          → (validate_and_consume value m tx at now e).1 ≡ e)
  unfolding validate_and_consume refused
  consume_decision =
      ((consume_only_if, λ c. (consume_accepts c.0 c.1 c.2 c.3).0), λ h. ground arith)

-- A nonce just issued, whose text is not empty and has no blanks around it, is accepted by the next
-- call, for its own mandate and transaction, at any time from its issue until before its expiry.
pub issue_then_consume :
    (m tx : String) (ttl : ℤ) (issued at : Time) (value : String) (e : NonceEngine)
    {r : NonceRecord} {e' : NonceEngine}
    → issue_nonce m tx ttl (some issued) value issued e ≡ (ok r, e')
    → strip value ≡ value
    → is_empty value ≡ false
    → issued ≤ℤ at
    → at <ℤ add_seconds issued ttl
    → (validate_and_consume value m tx (some at) at e').0.valid ≡ true
issue_then_consume m tx ttl issued at value e {r} {e'} done clean some_text after before =
    (consume_accepts value m tx (some at) at e' r (rw clean some_text)
      (unfold issue_nonce nonce_record in
        ground (arith, lookup-insert_self value r e.records, clean))
      (unfold issue_nonce nonce_record in
        record {
          mandate = ground arith;
          transaction = ground arith;
          state = ground arith;
          issued = ground arith;
          alive = ground arith;
        })).0
