-- ===== src/Replay/Tests.antt =====
-- Replay protection at concrete inputs; the digest joins its parts.
use mandate_gateway.Base.{String, ◌≡◌, refl, true, false, none, some, [], ◌∷◌}
use mandate_gateway.Int.{pos, ◌+ℤ◌, ◌*ℤ◌}
use mandate_gateway.Text.{strip}
use mandate_gateway.Dict.{lookup}
use mandate_gateway.Clock.{add_seconds}
use mandate_gateway.Replay.{
  Digest, Action, ReplayEngine, compute_replay_fingerprint, check_and_record, is_replayed,
  new_record, evaluation, is_expired,
}
use mandate_gateway.Replay.Window.{run, replay_blocked}

abbrev digest : Digest
digest cart mandate merchant transaction = transaction

abbrev buys : String → Action
buys tx = record {
  mandate_id = "mandate";
  transaction_id = tx;
  cart_hash = some "ABC";
  merchant_id = none;
}

abbrev empty : ReplayEngine
empty = record { records = [] }

-- `buys "tx"`, then another action, then `buys "tx"` written with blanks
replay_blocked_example :
    let e =
      run digest
        (check_and_record digest (buys "tx") (pos 60) (some (pos 5)) (pos 5) empty).1
        (record { action = buys "tx-2"; ttl = pos 0; at = pos 7 } ∷ []) in
    ((check_and_record digest (buys " tx ") (pos 60) (some (pos 9)) (pos 9) e).0.valid ≡ false)
    × ((check_and_record digest (buys " tx ") (pos 60) (some (pos 9)) (pos 9) e).1 ≡ e)
    × (is_replayed digest (buys " tx ") (some (pos 9)) (pos 9) e ≡ true)
unfolding check_and_record compute_replay_fingerprint strip lookup new_record evaluation is_expired
    add_seconds ◌+ℤ◌ ◌*ℤ◌
replay_blocked_example =
    replay_blocked digest (buys "tx") (buys " tx ") (pos 60) (pos 60) (pos 5) (pos 9)
      (record { action = buys "tx-2"; ttl = pos 0; at = pos 7 } ∷ []) empty refl refl (refl, tt)
      refl
