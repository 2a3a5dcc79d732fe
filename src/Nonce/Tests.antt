-- ===== src/Nonce/Tests.antt =====
-- The nonce engine at concrete inputs: one nonce, issued at time 10 for 60 seconds.
use mandate_gateway.Base.{
  String, ◌≡◌, refl, ◌↔◌, ◌≤◌, true, false, none, some, List, [], ◌∷◌, arith, eq_iff,
}
use mandate_gateway.Int.{pos}
use mandate_gateway.Text.{strip, is_empty, text_length}
use mandate_gateway.Dict.{lookup, insert}
use mandate_gateway.Types.{NonceState}
use mandate_gateway.Nonce.{
  NonceRecord, NonceEngine, issue_nonce, nonce_record, refused, validate_and_consume,
}
use mandate_gateway.Nonce.Decision.{CanConsume, consume_decision}
use mandate_gateway.Nonce.SingleUse.{Call, step, accepts, accepted, accepted_at_most_once}

abbrev value : String
value = "0123456789abcdef"

abbrev stored : NonceRecord
stored = record {
  nonce_value = value;
  transaction_id = "tx";
  mandate_id = "mandate";
  state = NonceState.issued;
  issued_at = pos 10;
  expires_at = pos 60_000_010;
  consumed_at = none;
}

abbrev engine : NonceEngine
engine = record { records = (value, stored) ∷ [] }

consume_decision_example :
    (((validate_and_consume value "mandate" "tx" none (pos 20) engine).0.valid ≡ true) ↔ (
      (r : NonceRecord) × (is_empty (strip value) ≡ false)
      × (lookup (strip value) engine.records ≡ some r)
      × CanConsume r "mandate" "tx" (pos 20)))
    × ((validate_and_consume value "mandate" "tx" none (pos 20) engine).0.valid ≡ false
        → (validate_and_consume value "mandate" "tx" none (pos 20) engine).1 ≡ engine)
consume_decision_example = consume_decision value "mandate" "tx" none (pos 20) engine

abbrev twice : List Call
twice =
    Call.consumes value "mandate" "tx" none (pos 20)
    ∷ Call.issues "mandate" "tx-2" (pos 60) none "fedcba9876543210" (pos 21)
    ∷ Call.consumes value "mandate" "tx" none (pos 22)
    ∷ []

twice_test : accepted value engine twice ≡ 1
unfolding accepted accepts refused step validate_and_consume strip lookup insert issue_nonce
    nonce_record text_length
twice_test = refl

accepted_at_most_once_example : accepted value engine twice ≤ 1
accepted_at_most_once_example =
    accepted_at_most_once value engine twice
      ((λ p. ground (arith, eq_iff value "fedcba9876543210")), tt)
