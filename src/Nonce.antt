-- ===== src/Nonce.antt =====
-- apps/api/domain/nonce.py, and the functions and the in-memory methods of `NonceEngine` in
-- apps/api/domain/nonce_engine.py. Every method holds the engine's lock and is one step. The random
-- nonce is the argument `value`; `nonce_id` and message texts are not modelled.
pub mod SingleUse
pub mod Decision
mod Tests
use mandate_gateway.Base.{
  String, Bool, true, false, not, ◌||◌, Option, none, some, str_eq, ltb, if◌then◌else◌, Result, ok,
  err, Action, pure, raise_if, lift, modify, ◌>>=◌, ◌>>◌,
}
use mandate_gateway.Int.{ℤ, ltb_ℤ, leb_ℤ}
use mandate_gateway.Text.{strip, is_empty, is_blank, text_length}
use mandate_gateway.Dict.{Dict, lookup, insert}
use mandate_gateway.Clock.{Time, add_seconds, time_or_now}
use mandate_gateway.Types.{NonceState, PolicyDecision, RejectionReason}

pub data NonceError : Type 0 where
  empty_mandate_id empty_transaction_id validation : NonceError
  already_consumed authorization_expired : NonceError

pub record NonceRecord : Type 0 where
  pub nonce_value : String
  pub transaction_id : String
  pub mandate_id : String
  pub state : NonceState
  pub issued_at : Time
  pub expires_at : Time
  pub consumed_at : Option Time

-- the constructor's field bounds
unfoldable pub nonce_record : NonceRecord → Result NonceError NonceRecord
nonce_record r =
    if ltb (text_length r.nonce_value) 16 || is_empty r.transaction_id || is_empty r.mandate_id
    then err NonceError.validation
    else ok r

-- `NonceRecord.is_expired`, at a given time
unfoldable pub is_expired : NonceRecord → Time → Bool
is_expired r check_time = leb_ℤ r.expires_at check_time

abbrev pub is_consumed : NonceState → Bool
is_consumed NonceState.consumed = true
is_consumed NonceState.issued = false

unfoldable pub assert_nonce_consumable : NonceRecord → Time → Result NonceError Unit
assert_nonce_consumable r now =
    if is_consumed r.state
    then err NonceError.already_consumed
    else if leb_ℤ r.expires_at now
    then err NonceError.authorization_expired
    else ok tt

abbrev pub consumed_record : NonceRecord → Time → NonceRecord
consumed_record r at = record r { state = NonceState.consumed; consumed_at = some at }

unfoldable pub consume_nonce : NonceRecord → Option Time → Time → Result NonceError NonceRecord
unfolding assert_nonce_consumable
consume_nonce r at now = elim (assert_nonce_consumable r (time_or_now at now)) [
  | ok _ ↦ ok (consumed_record r (time_or_now at now))
  | err x ↦ err x
]

pub record NonceEvaluationResult : Type 0 where
  pub valid : Bool
  pub decision : PolicyDecision
  pub nonce_value : String
  pub mandate_id : String
  pub transaction_id : String
  pub found : Option NonceRecord
  pub rejection_reason : Option RejectionReason
  pub evaluated_at : Time

pub record NonceEngine : Type 0 where
  pub records : Dict NonceRecord

unfoldable pub issue_nonce :
    String → String → ℤ → Option Time → String → Time → Action NonceEngine NonceError NonceRecord
unfolding nonce_record
issue_nonce mandate_id transaction_id ttl at value now = do
  raise_if (is_blank mandate_id) NonceError.empty_mandate_id
  raise_if (is_blank transaction_id) NonceError.empty_transaction_id
  issued ← lift (
      nonce_record (record {
        nonce_value = value;
        transaction_id = strip transaction_id;
        mandate_id = strip mandate_id;
        state = NonceState.issued;
        issued_at = time_or_now at now;
        expires_at = add_seconds (time_or_now at now) ttl;
        consumed_at = none;
      }))
  modify (λ e. record { records = insert value issued e.records })
  pure issued

unfoldable pub refused :
    String → String → String → Option NonceRecord → RejectionReason → Time → NonceEvaluationResult
refused value mandate_id transaction_id found reason at = record {
  valid = false;
  decision = PolicyDecision.reject;
  nonce_value = value;
  mandate_id = mandate_id;
  transaction_id = transaction_id;
  found = found;
  rejection_reason = some reason;
  evaluated_at = at;
}

-- the ladder of tests on a record that was found: why it is refused
unfoldable pub refusal : NonceRecord → String → String → Time → Option RejectionReason
refusal r mandate_id transaction_id at =
    if not (str_eq r.mandate_id (strip mandate_id))
      || not (str_eq r.transaction_id (strip transaction_id))
    then some RejectionReason.nonce_invalid
    else if is_consumed r.state
    then some RejectionReason.nonce_already_consumed
    else if ltb_ℤ at r.issued_at
    then some RejectionReason.invalid_transaction_state
    else if leb_ℤ r.expires_at at
    then some RejectionReason.authorization_expired
    else none

-- `validate_and_consume` for a record that was found
unfoldable pub consume_found :
    NonceRecord
    → String
    → String
    → String
    → Time
    → NonceEngine
    → NonceEvaluationResult × NonceEngine
unfolding refusal
consume_found r clean mandate_id transaction_id at e =
    elim (refusal r mandate_id transaction_id at) [
      | some reason ↦ (refused clean mandate_id transaction_id (some r) reason at, e)
      | none ↦ (
        record {
          valid = true;
          decision = PolicyDecision.allow;
          nonce_value = clean;
          mandate_id = mandate_id;
          transaction_id = transaction_id;
          found = some (consumed_record r at);
          rejection_reason = none;
          evaluated_at = at;
        },
        record { records = insert clean (consumed_record r at) e.records },
      )
    ]

-- `nonce_value.strip() if nonce_value else ""`: an empty text strips to itself.
unfoldable pub validate_and_consume :
    String
    → String
    → String
    → Option Time
    → Time
    → NonceEngine
    → NonceEvaluationResult × NonceEngine
unfolding consume_found
validate_and_consume value mandate_id transaction_id at now e =
    if is_empty (strip value)
    then (refused value mandate_id transaction_id none RejectionReason.nonce_invalid t, e)
    else elim (lookup (strip value) e.records) [
      | none ↦
          (refused (strip value) mandate_id transaction_id none RejectionReason.nonce_invalid t, e)
      | some r ↦ consume_found r (strip value) mandate_id transaction_id t e
    ]
  where
    t : Time
    t = time_or_now at now

unfoldable pub get_nonce : String → NonceEngine → Option NonceRecord
get_nonce value e = lookup (strip value) e.records
