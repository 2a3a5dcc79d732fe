-- ===== src/StepUp.antt =====
-- apps/api/domain/step_up.py, and `classify_step_up_zone` and the in-memory methods of `StepUpEngine`
-- in apps/api/domain/step_up_engine.py. Every method holds the engine's lock and is one step. The
-- percentage that a `StepUpDiff` shows is a float for display and is not modelled, but the division
-- by the cap that computes it is: by a zero cap it raises. Message texts are not modelled.
pub mod Zones
pub mod Approval
mod Tests
use mandate_gateway.Base.{
  String, Bool, true, false, not, ◌&&◌, ◌||◌, Option, none, some, str_eq, if◌then◌else◌, Result, ok,
  err, Action, pure, raise, gets, or_raise, raise_if, lift, modify, ◌>>=◌, ◌>>◌,
}
use mandate_gateway.Int.{ℤ, pos, ◌+ℤ◌, ◌-ℤ◌, ◌*ℤ◌, ◌//◌, ltb_ℤ, leb_ℤ, eqb_ℤ}
use mandate_gateway.Text.{strip, lower, is_empty}
use mandate_gateway.Dict.{Dict, lookup, insert}
use mandate_gateway.Clock.{Time, add_seconds, time_or_now}
use mandate_gateway.Types.{StepUpZone, PolicyDecision, RejectionReason}

pub data StepUpError : Type 0 where
  negative_price zero_division : StepUpError
  challenge_not_found not_pending challenge_expired : StepUpError
  mandate_mismatch transaction_mismatch cart_hash_mismatch : StepUpError
  amount_mismatch merchant_mismatch : StepUpError

pub data ChallengeStatus : Type 0 where
  pending approved rejected expired : ChallengeStatus

abbrev pub is_pending : ChallengeStatus → Bool
is_pending ChallengeStatus.pending = true
is_pending _ = false

abbrev pub is_approved : ChallengeStatus → Bool
is_approved ChallengeStatus.approved = true
is_approved _ = false

pub record StepUpDiff : Type 0 where
  pub approved_paise : ℤ
  pub proposed_paise : ℤ
  pub delta_paise : ℤ

pub record StepUpResult : Type 0 where
  pub zone : StepUpZone
  pub diff : Option StepUpDiff

-- `mandate_cap * (1 + max_step_up_percent / 100)`, rounded down
unfoldable pub max_allowed_paise : ℤ → ℤ → ℤ
max_allowed_paise cap percent = cap +ℤ cap *ℤ percent // 100

-- The result of a branch that first divides by the cap, for the percentage that it shows.
abbrev pub dividing_by : ℤ → StepUpResult → Result StepUpError StepUpResult
dividing_by cap res = if eqb_ℤ cap (pos 0) then err StepUpError.zero_division else ok res

unfoldable pub classify_step_up_zone : ℤ → ℤ → ℤ → Result StepUpError StepUpResult
unfolding max_allowed_paise
classify_step_up_zone total cap percent =
    if ltb_ℤ total (pos 0) || ltb_ℤ cap (pos 0)
    then err StepUpError.negative_price
    else if leb_ℤ total cap
    then ok (record { zone = StepUpZone.auto_execute; diff = none })
    else if leb_ℤ total (max_allowed_paise cap percent)
    then dividing_by cap (record {
      zone = StepUpZone.step_up_required;
      diff =
          some
            (record { approved_paise = cap; proposed_paise = total; delta_paise = total -ℤ cap });
    })
    else dividing_by cap (record { zone = StepUpZone.hard_reject; diff = none })

pub record StepUpChallengeRecord : Type 0 where
  pub challenge_id : String
  pub mandate_id : String
  pub transaction_id : String
  pub cart_hash : String
  pub approved_paise : ℤ
  pub proposed_paise : ℤ
  pub merchant_id : String
  pub status : ChallengeStatus
  pub created_at : Time
  pub expires_at : Time
  pub confirmed_at : Option Time
  pub confirmed_by : Option String

pub record TrustedConfirmation : Type 0 where
  pub challenge_id : String
  pub mandate_id : String
  pub transaction_id : String
  pub cart_hash : String
  pub proposed_paise : ℤ
  pub merchant_id : String
  pub confirmed_by : String

pub record StepUpEvaluationResult : Type 0 where
  pub valid : Bool
  pub decision : PolicyDecision
  pub zone : StepUpZone
  pub challenge_id : Option String
  pub diff : Option StepUpDiff
  pub rejection_reason : Option RejectionReason
  pub evaluated_at : Time

pub record StepUpEngine : Type 0 where
  pub challenges : Dict StepUpChallengeRecord

-- `cid` is `f"challenge-{uuid.uuid4()}"`.
unfoldable pub create_challenge :
    String
    → String
    → String
    → ℤ
    → ℤ
    → String
    → ℤ
    → Option Time
    → String
    → Time
    → StepUpEngine
    → StepUpChallengeRecord × StepUpEngine
create_challenge mandate_id transaction_id cart_hash cap total merchant_id ttl at cid now e =
    (challenge, record { challenges = insert cid challenge e.challenges })
  where
    challenge : StepUpChallengeRecord
    challenge = record {
      challenge_id = cid;
      mandate_id = strip mandate_id;
      transaction_id = strip transaction_id;
      cart_hash = lower (strip cart_hash);
      approved_paise = cap;
      proposed_paise = total;
      merchant_id = strip merchant_id;
      status = ChallengeStatus.pending;
      created_at = time_or_now at now;
      expires_at = add_seconds (time_or_now at now) ttl;
      confirmed_at = none;
      confirmed_by = none;
    }

abbrev pub store : String → StepUpChallengeRecord → StepUpEngine → StepUpEngine
store cid r e = record { challenges = insert cid r e.challenges }

-- the tests of the context that the challenge is bound to
unfoldable pub check_binding : StepUpChallengeRecord → TrustedConfirmation → Result StepUpError Unit
check_binding r c =
    if not (str_eq r.mandate_id (strip c.mandate_id))
    then err StepUpError.mandate_mismatch
    else if not (str_eq r.transaction_id (strip c.transaction_id))
    then err StepUpError.transaction_mismatch
    else if not (str_eq r.cart_hash (lower (strip c.cart_hash)))
    then err StepUpError.cart_hash_mismatch
    else if not (eqb_ℤ r.proposed_paise c.proposed_paise)
    then err StepUpError.amount_mismatch
    else if not (str_eq r.merchant_id (strip c.merchant_id))
    then err StepUpError.merchant_mismatch
    else ok tt

-- The branch of a confirmation that comes too late: the challenge is stored as expired, without the
-- confirmation, before the method raises.
unfoldable pub expire_challenge :
    String → StepUpChallengeRecord → Action StepUpEngine StepUpError StepUpChallengeRecord
expire_challenge cid r = do
  let late = record r { status = ChallengeStatus.expired; confirmed_at = none; confirmed_by = none }
  modify (store cid late)
  raise StepUpError.challenge_expired

unfoldable pub approve_challenge :
    String
    → StepUpChallengeRecord
    → TrustedConfirmation
    → Time
    → Action StepUpEngine StepUpError StepUpChallengeRecord
unfolding check_binding
approve_challenge cid r c at = do
  lift (check_binding r c)
  let confirmed = record r {
    status = ChallengeStatus.approved;
    confirmed_at = some at;
    confirmed_by = some (strip c.confirmed_by);
  }
  modify (store cid confirmed)
  pure confirmed

unfoldable pub record_human_confirmation :
    TrustedConfirmation → Option Time → Time → Action StepUpEngine StepUpError StepUpChallengeRecord
unfolding expire_challenge approve_challenge
record_human_confirmation c at now = do
  let cid = strip c.challenge_id
  found ← gets (λ e. lookup cid e.challenges)
  r ← or_raise found StepUpError.challenge_not_found
  raise_if (not (is_pending r.status)) StepUpError.not_pending
  if leb_ℤ r.expires_at (time_or_now at now)
      then expire_challenge cid r
      else approve_challenge cid r c (time_or_now at now)

-- `given and bound != clean(given)`, for an optional text
abbrev pub mismatch : Option String → (String → String) → String → Bool
mismatch none clean bound = false
mismatch (some given) clean bound = not (is_empty given) && not (str_eq bound (clean given))

-- The context that an evaluation may give, each part optional.
pub record StepUpContext : Type 0 where
  pub challenge_id : Option String
  pub mandate_id : Option String
  pub transaction_id : Option String
  pub cart_hash : Option String
  pub merchant_id : Option String

-- why a challenge that was found does not approve the total
unfoldable pub challenge_refusal :
    StepUpChallengeRecord → StepUpContext → ℤ → Time → Option RejectionReason
challenge_refusal r x total at =
    if not (is_approved r.status)
    then some RejectionReason.step_up_confirmation_invalid
    else if leb_ℤ r.expires_at at
    then some RejectionReason.step_up_confirmation_expired
    else if mismatch x.mandate_id strip r.mandate_id
        || mismatch x.transaction_id strip r.transaction_id
        || mismatch x.cart_hash (λ s. lower (strip s)) r.cart_hash
        || mismatch x.merchant_id strip r.merchant_id
        || not (eqb_ℤ r.proposed_paise total)
    then some RejectionReason.step_up_confirmation_invalid
    else none

-- `challenge_id.strip()`, or nothing if it is missing or blank
unfoldable pub clean_id : Option String → Option String
clean_id none = none
clean_id (some s) = if is_empty s || is_empty (strip s) then none else some (strip s)

-- Zone B of `evaluate_authorization_step_up`.
unfoldable pub evaluate_zone_b :
    StepUpResult → StepUpContext → ℤ → Time → StepUpEngine → StepUpEvaluationResult
unfolding clean_id challenge_refusal
evaluate_zone_b res x total at e = elim (clean_id x.challenge_id) [
  | none ↦ outcome PolicyDecision.step_up_required none none
  | some cid ↦ elim (lookup cid e.challenges) [
    | none ↦
        outcome PolicyDecision.reject (some cid) (some RejectionReason.step_up_confirmation_invalid)
    | some r ↦ elim (challenge_refusal r x total at) [
      | some reason ↦ outcome PolicyDecision.reject (some cid) (some reason)
      | none ↦ record {
        valid = true;
        decision = PolicyDecision.allow;
        zone = StepUpZone.step_up_required;
        challenge_id = some cid;
        diff = res.diff;
        rejection_reason = none;
        evaluated_at = at;
      }
    ]
  ]
]
  where
    outcome : PolicyDecision → Option String → Option RejectionReason → StepUpEvaluationResult
    outcome decision cid reason = record {
      valid = false;
      decision = decision;
      zone = StepUpZone.step_up_required;
      challenge_id = cid;
      diff = res.diff;
      rejection_reason = reason;
      evaluated_at = at;
    }

unfoldable pub evaluate_zone :
    StepUpResult → StepUpContext → ℤ → Time → StepUpEngine → StepUpEvaluationResult
unfolding evaluate_zone_b
evaluate_zone res x total at e = elim res.zone [
  | StepUpZone.auto_execute ↦ record {
    valid = true;
    decision = PolicyDecision.allow;
    zone = StepUpZone.auto_execute;
    challenge_id = none;
    diff = none;
    rejection_reason = none;
    evaluated_at = at;
  }
  | StepUpZone.hard_reject ↦ record {
    valid = false;
    decision = PolicyDecision.reject;
    zone = StepUpZone.hard_reject;
    challenge_id = none;
    diff = none;
    rejection_reason = some RejectionReason.exceeds_step_up_hard_limit;
    evaluated_at = at;
  }
  | StepUpZone.step_up_required ↦ evaluate_zone_b res x total at e
]

-- It reads the store and changes nothing; an error is one of `classify_step_up_zone`.
unfoldable pub evaluate_authorization_step_up :
    ℤ
    → ℤ
    → ℤ
    → StepUpContext
    → Option Time
    → Time
    → StepUpEngine
    → Result StepUpError StepUpEvaluationResult
unfolding evaluate_zone
evaluate_authorization_step_up total cap percent x at now e =
    elim (classify_step_up_zone total cap percent) [
      | err error ↦ err error
      | ok res ↦ ok (evaluate_zone res x total (time_or_now at now) e)
    ]

unfoldable pub get_challenge : String → StepUpEngine → Option StepUpChallengeRecord
get_challenge cid e = lookup (strip cid) e.challenges
