-- ===== src/Replay.antt =====
-- apps/api/domain/replay_engine.py, its in-memory part. The engine's lock makes every method one
-- step. `digest` is the SHA-256 of the canonical JSON object of the cart hash, the mandate, the
-- merchant and the transaction; it is a parameter, and where a property needs that distinct
-- objects have distinct digests, that is a hypothesis. Message texts are not modelled.
pub mod Window
mod Tests
use mandate_gateway.Base.{
  String, Bool, true, false, not, ◌&&◌, Option, none, some, is_some, if◌then◌else◌,
}
use mandate_gateway.Int.{ℤ, pos, ltb_ℤ, leb_ℤ}
use mandate_gateway.Text.{strip, lower, is_empty, is_blank}
use mandate_gateway.Dict.{Dict, lookup, insert}
use mandate_gateway.Clock.{Time, add_seconds, time_or_now}
use mandate_gateway.Types.{PolicyDecision, RejectionReason}

-- `clean(given) if given else ""`
abbrev pub clean_or_empty : (String → String) → Option String → String
clean_or_empty clean none = ""
clean_or_empty clean (some s) = if is_empty s then "" else clean s

-- the digest of a cart hash, a mandate, a merchant and a transaction
abbrev pub Digest : Type 0
Digest = String → String → String → String → String

-- The identity of an action: what its fingerprint is computed from.
pub record Action : Type 0 where
  pub mandate_id : String
  pub transaction_id : String
  pub cart_hash : Option String
  pub merchant_id : Option String

unfoldable pub compute_replay_fingerprint : Digest → Action → String
compute_replay_fingerprint digest a =
    digest (clean_or_empty (λ s. lower (strip s)) a.cart_hash) (strip a.mandate_id)
      (clean_or_empty strip a.merchant_id) (strip a.transaction_id)

pub record ReplayRecord : Type 0 where
  pub fingerprint : String
  pub mandate_id : String
  pub transaction_id : String
  pub created_at : Time
  pub expires_at : Option Time

-- `ReplayRecord.is_expired`, at a given time
unfoldable pub is_expired : ReplayRecord → Time → Bool
is_expired r at = elim r.expires_at [ none ↦ false | some t ↦ leb_ℤ t at ]

pub record ReplayEvaluationResult : Type 0 where
  pub valid : Bool
  pub decision : PolicyDecision
  pub fingerprint : String
  pub mandate_id : String
  pub transaction_id : String
  pub rejection_reason : Option RejectionReason
  pub evaluated_at : Time

pub record ReplayEngine : Type 0 where
  pub records : Dict ReplayRecord

-- `existing is not None and not existing.is_expired(at)`
unfoldable pub is_live : Option ReplayRecord → Time → Bool
unfolding is_expired
is_live none at = false
is_live (some r) at = not (is_expired r at)

unfoldable pub new_record : String → Action → ℤ → Time → ReplayRecord
new_record fingerprint a ttl at = record {
  fingerprint = fingerprint;
  mandate_id = a.mandate_id;
  transaction_id = a.transaction_id;
  created_at = at;
  expires_at = if ltb_ℤ (pos 0) ttl then some (add_seconds at ttl) else none;
}

unfoldable pub evaluation :
    Bool → String → Action → Option RejectionReason → Time → ReplayEvaluationResult
evaluation valid fingerprint a reason at = record {
  valid = valid;
  decision = if valid then PolicyDecision.allow else PolicyDecision.reject;
  fingerprint = fingerprint;
  mandate_id = a.mandate_id;
  transaction_id = a.transaction_id;
  rejection_reason = reason;
  evaluated_at = at;
}

module _ (digest : Digest) where
  unfoldable pub check_and_record :
      Action → ℤ → Option Time → Time → ReplayEngine → ReplayEvaluationResult × ReplayEngine
  unfolding new_record evaluation is_live
  check_and_record a ttl at now e =
      if is_blank a.mandate_id
      then (evaluation false "" a (some RejectionReason.invalid_transaction_state) t, e)
      else if is_blank a.transaction_id
      then (evaluation false "" a (some RejectionReason.invalid_transaction_state) t, e)
      else if is_live (lookup key e.records) t
      then (evaluation false key a (some RejectionReason.replay_attempt_detected) t, e)
      else (
        evaluation true key a none t,
        record { records = insert key (new_record key a ttl t) e.records },
      )
    where
      t : Time
      t = time_or_now at now

      key : String
      key = compute_replay_fingerprint digest a

  unfoldable pub is_replayed : Action → Option Time → Time → ReplayEngine → Bool
  unfolding is_live
  is_replayed a at now e =
      is_live (lookup (compute_replay_fingerprint digest a) e.records) (time_or_now at now)
