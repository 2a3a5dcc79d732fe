-- ===== src/StepUp/Approval.antt =====
-- What an evaluation of step_up_engine.py that allows says of the earlier calls.
use mandate_gateway.Base.{
  ap, String, ◌≡◌, sym, ◌↔◌, ◌⊎◌, inl, inr, Bool, true, false, not, ◌||◌, Option, none, some, List,
  [], ◌∷◌, arith, str_eq, eq_iff, if◌then◌else◌, Option-cases, Bool-cases, Result-cases, ok,
}
use mandate_gateway.Int.{ℤ, ◌≤ℤ◌, ◌<ℤ◌, leb_ℤ, eqb_ℤ}
use mandate_gateway.Text.{strip, lower, is_empty}
use mandate_gateway.Dict.{lookup, lookup-insert}
use mandate_gateway.Clock.{Time, time_or_now}
use mandate_gateway.Types.{RejectionReason}
use mandate_gateway.StepUp.{
  ChallengeStatus, is_pending, is_approved, StepUpChallengeRecord, TrustedConfirmation,
  StepUpContext, StepUpEngine, create_challenge, check_binding, expire_challenge, approve_challenge,
  record_human_confirmation, challenge_refusal, evaluate_zone_b, clean_id, evaluate_zone,
  StepUpResult, mismatch, evaluate_authorization_step_up, StepUpEvaluationResult,
  classify_step_up_zone,
}

-- The confirmation names the context that the challenge is bound to.
pub record Binds (r : StepUpChallengeRecord) (c : TrustedConfirmation) : Type 0 where
  pub mandate : r.mandate_id ≡ strip c.mandate_id
  pub transaction : r.transaction_id ≡ strip c.transaction_id
  pub cart : r.cart_hash ≡ lower (strip c.cart_hash)
  pub amount : r.proposed_paise ≡ c.proposed_paise
  pub merchant : r.merchant_id ≡ strip c.merchant_id

check_binding_iff :
    (r : StepUpChallengeRecord) (c : TrustedConfirmation) → (check_binding r c ≡ ok tt) ↔ Binds r c
unfolding check_binding
check_binding_iff r c =
    let m = eq_iff r.mandate_id (strip c.mandate_id) in
    let t = eq_iff r.transaction_id (strip c.transaction_id) in
    let h = eq_iff r.cart_hash (lower (strip c.cart_hash)) in
    let s = eq_iff r.merchant_id (strip c.merchant_id) in
    (
      λ e. record {
        mandate = ground (arith, m);
        transaction = ground (arith, t);
        cart = ground (arith, h);
        amount = ground arith;
        merchant = ground (arith, s);
      },
      λ b. ground (arith, m, t, h, s),
    )

pub data Call : Type 0 where
  creates : String → String → String → ℤ → ℤ → String → ℤ → Option Time → String → Time → Call
  confirms : TrustedConfirmation → Option Time → Time → Call

unfoldable pub step : StepUpEngine → Call → StepUpEngine
step e (creates m t h cap total s ttl at cid now) =
    (create_challenge m t h cap total s ttl at cid now e).1
step e (confirms c at now) = (record_human_confirmation c at now e).1

unfoldable pub run : StepUpEngine → List Call → StepUpEngine
run e [] = e
run e (call ∷ calls) = run (step e call) calls

-- Among the calls is a human confirmation of challenge `cid` that binds what `r` is bound to, made
-- before `r` expires.
pub data Confirmed (cid : String) (r : StepUpChallengeRecord) : List Call → Type 0 where
  here :
      (c : TrustedConfirmation) (at : Option Time) (now : Time) (calls : List Call)
      → strip c.challenge_id ≡ cid
      → Binds r c
      → time_or_now at now <ℤ r.expires_at
      → Confirmed cid r (confirms c at now ∷ calls)
  later : (call : Call) (calls : List Call) → Confirmed cid r calls → Confirmed cid r (call ∷ calls)

-- What `approve_challenge` stores.
abbrev approval : StepUpChallengeRecord → TrustedConfirmation → Time → StepUpChallengeRecord
approval q c t = record q {
  status = ChallengeStatus.approved;
  confirmed_at = some t;
  confirmed_by = some (strip c.confirmed_by);
}

abbrev expiry : StepUpChallengeRecord → StepUpChallengeRecord
expiry q = record q { status = ChallengeStatus.expired; confirmed_at = none; confirmed_by = none }

approval-Binds :
    (q : StepUpChallengeRecord) (c : TrustedConfirmation) (t : Time)
    → Binds q c
    → Binds (approval q c t) c
approval-Binds q c t b = record {
  mandate = b.mandate;
  transaction = b.transaction;
  cart = b.cart;
  amount = b.amount;
  merchant = b.merchant;
}

module _ (cid : String) (r : StepUpChallengeRecord) (approved : is_approved r.status ≡ true) where
  approve_approves :
      (q : StepUpChallengeRecord) (c : TrustedConfirmation) (t : Time) (e : StepUpEngine)
      → lookup cid (approve_challenge (strip c.challenge_id) q c t e).1.challenges ≡ some r
      → leb_ℤ q.expires_at t ≡ false
      → (lookup cid e.challenges ≡ some r)
        ⊎ ((strip c.challenge_id ≡ cid) × Binds r c × (t <ℤ r.expires_at))
  unfolding approve_challenge
  approve_approves q c t e k alive = elim (Result-cases (check_binding q c)) [
    | inr (x, bad) ↦ inl (ground arith)
    | inl (u, good) ↦ elim (Bool-cases (str_eq cid (strip c.challenge_id))) [
      | inr other ↦
          inl
            (ground (arith, lookup-insert (strip c.challenge_id) cid (approval q c t) e.challenges))
      | inl same ↦
          let stored : approval q c t ≡ r =
            ground
              (arith, lookup-insert (strip c.challenge_id) cid (approval q c t) e.challenges) in
          inr (
            sym ((eq_iff cid (strip c.challenge_id)).0 same),
            rw stored at (approval-Binds q c t ((check_binding_iff q c).0 good)),
            ground (arith, ap (λ (x : StepUpChallengeRecord). x.expires_at) stored, alive),
          )
    ]
  ]

  confirm_approves :
      (c : TrustedConfirmation) (at : Option Time) (now : Time) (e : StepUpEngine)
      → lookup cid (record_human_confirmation c at now e).1.challenges ≡ some r
      → (lookup cid e.challenges ≡ some r)
        ⊎ ((strip c.challenge_id ≡ cid) × Binds r c × (time_or_now at now <ℤ r.expires_at))
  unfolding record_human_confirmation
  confirm_approves c at now e k = elim (Option-cases (lookup (strip c.challenge_id) e.challenges)) [
    | inl missing ↦ inl (ground arith)
    | inr (q, found) ↦ elim (Bool-cases (is_pending q.status)) [
      | inr settled ↦ inl (ground arith)
      | inl pending_now ↦ elim (Bool-cases (leb_ℤ q.expires_at (time_or_now at now))) [
        | inl late ↦ inl (
            unfold expire_challenge in
            ground (
              arith,
              lookup-insert (strip c.challenge_id) cid (expiry q) e.challenges,
              eq_iff cid (strip c.challenge_id),
            ))
        | inr alive ↦ approve_approves q c (time_or_now at now) e (ground arith) alive
      ]
    ]
  ]

  create_approves :
      (m t h : String) (cap total : ℤ) (s : String) (ttl : ℤ) (at : Option Time) (j : String)
      (now : Time) (e : StepUpEngine)
      → lookup cid (create_challenge m t h cap total s ttl at j now e).1.challenges ≡ some r
      → lookup cid e.challenges ≡ some r
  unfolding create_challenge
  create_approves m t h cap total s ttl at j now e k = ground (
    arith,
    lookup-insert j cid (create_challenge m t h cap total s ttl at j now e).0 e.challenges,
    eq_iff cid j,
  )

  pub approved_before_or_Confirmed :
      (e : StepUpEngine) (calls : List Call)
      → lookup cid (run e calls).challenges ≡ some r
      → (lookup cid e.challenges ≡ some r) ⊎ Confirmed cid r calls
  unfolding run step
  approved_before_or_Confirmed e [] k = inl k
  approved_before_or_Confirmed e (creates m t h cap total s ttl at j now ∷ calls) k =
      elim (approved_before_or_Confirmed (step e (creates m t h cap total s ttl at j now)) calls
        k) [
          | inr c ↦ inr (later (creates m t h cap total s ttl at j now) calls c)
          | inl before ↦ inl (create_approves m t h cap total s ttl at j now e before)
        ]
  approved_before_or_Confirmed e (confirms c at now ∷ calls) k =
      elim (approved_before_or_Confirmed (step e (confirms c at now)) calls k) [
        | inr d ↦ inr (later (confirms c at now) calls d)
        | inl before ↦ elim (confirm_approves c at now e before) [
          | inl old ↦ inl old
          | inr (id, b, timely) ↦ inr (here c at now calls id b timely)
        ]
      ]

-- What is given and not empty is, cleaned, what the challenge is bound to.
abbrev pub MatchesGiven : Option String → (String → String) → String → Type 0
MatchesGiven given clean bound =
    (s : String) → given ≡ some s → is_empty s ≡ false → bound ≡ clean s

pub record InContext (r : StepUpChallengeRecord) (x : StepUpContext) : Type 0 where
  pub mandate : MatchesGiven x.mandate_id strip r.mandate_id
  pub transaction : MatchesGiven x.transaction_id strip r.transaction_id
  pub cart : MatchesGiven x.cart_hash (λ s. lower (strip s)) r.cart_hash
  pub merchant : MatchesGiven x.merchant_id strip r.merchant_id

matches_given :
    (given : Option String) (clean : String → String) (bound : String)
    → mismatch given clean bound ≡ false
    → MatchesGiven given clean bound
matches_given none clean bound h s e n = absurd (ground arith)
matches_given (some t) clean bound h s e n =
    let same : t ≡ s = ground arith in
    rw (← same) (ground (arith, eq_iff bound (clean t), h, rw (← same) at n))

-- The challenge that is stored, after the calls, under the identifier that an evaluation names: it is
-- approved, of the evaluation's total, not expired at its time, and bound to what the context of the
-- evaluation gives; and among the calls is a confirmation of it.
pub record Confirms (calls : List Call) (x : StepUpContext) (total : ℤ) (at : Time) : Type 0 where
  pub cid : String
  pub challenge : StepUpChallengeRecord
  pub named : clean_id x.challenge_id ≡ some cid
  pub stored : lookup cid (run (record { challenges = [] }) calls).challenges ≡ some challenge
  pub approved : is_approved challenge.status ≡ true
  pub context : InContext challenge x
  pub amount : challenge.proposed_paise ≡ total
  pub alive : at <ℤ challenge.expires_at
  pub confirmed : Confirmed cid challenge calls

last_test :
    (a b c d f : Bool)
    → (if a || b || c || d || not f
        then some RejectionReason.step_up_confirmation_invalid
        else none)
      ≡ none
    → (a ≡ false) × (b ≡ false) × (c ≡ false) × (d ≡ false) × (f ≡ true)
last_test a b c d f h = (ground arith, ground arith, ground arith, ground arith, ground arith)

not_in_empty : (cid : String) (r : StepUpChallengeRecord) → lookup cid [] ≡ some r → ⊥
unfolding lookup
not_in_empty cid r h = cc

refusal_none :
    (r : StepUpChallengeRecord) (x : StepUpContext) (total : ℤ) (at : Time)
    → challenge_refusal r x total at ≡ none
    → (is_approved r.status ≡ true)
      × InContext r x
      × (r.proposed_paise ≡ total)
      × (at <ℤ r.expires_at)
unfolding challenge_refusal
refusal_none r x total at h =
    let status : is_approved r.status ≡ true = ground arith in
    let alive : leb_ℤ r.expires_at at ≡ false = ground arith in
    let (mandate, transaction, cart, merchant, amount) =
      last_test (mismatch x.mandate_id strip r.mandate_id)
        (mismatch x.transaction_id strip r.transaction_id)
        (mismatch x.cart_hash (λ s. lower (strip s)) r.cart_hash)
        (mismatch x.merchant_id strip r.merchant_id) (eqb_ℤ r.proposed_paise total)
        (rw (status, alive) at h) in
    (
      status,
      record {
        mandate = matches_given x.mandate_id strip r.mandate_id mandate;
        transaction = matches_given x.transaction_id strip r.transaction_id transaction;
        cart = matches_given x.cart_hash (λ s. lower (strip s)) r.cart_hash cart;
        merchant = matches_given x.merchant_id strip r.merchant_id merchant;
      },
      ground arith,
      ground arith,
    )

zone_b_needs_confirmation :
    (calls : List Call) (res : StepUpResult) (x : StepUpContext) (total : ℤ) (at : Time)
    → (evaluate_zone_b res x total at (run (record { challenges = [] }) calls)).valid ≡ true
    → Confirms calls x total at
unfolding evaluate_zone_b
zone_b_needs_confirmation calls res x total at v =
    let e = run (record { challenges = [] }) calls in
    elim (Option-cases (clean_id x.challenge_id)) [
      | inl none_named ↦ absurd (ground arith)
      | inr (cid, named) ↦ elim (Option-cases (lookup cid e.challenges)) [
        | inl missing ↦ absurd (ground arith)
        | inr (r, found) ↦
            let (approved, context, amount, alive) = refusal_none r x total at (ground arith) in
            elim (approved_before_or_Confirmed cid r approved (record { challenges = [] }) calls
              found) [
                | inl old ↦ absurd (not_in_empty cid r old)
                | inr c ↦ record {
                  cid = cid;
                  challenge = r;
                  named = named;
                  stored = found;
                  approved = approved;
                  context = context;
                  amount = amount;
                  alive = alive;
                  confirmed = c;
                }
              ]
      ]
    ]

-- Above the cap nothing is allowed without a human: after any calls on an empty engine, a total is
-- allowed only if it is within the cap, or if the challenge that is stored under the identifier that
-- the evaluation names is approved, of exactly this total, not expired at the time of the evaluation
-- and bound to the mandate, the transaction, the cart and the merchant that the evaluation gives, and
-- a confirmation among those calls named that challenge before it expired, with its total, mandate,
-- transaction, cart and merchant.
pub allowed_needs_confirmation :
    (calls : List Call) (total cap percent : ℤ) (x : StepUpContext) (at : Option Time) (now : Time)
    {out : StepUpEvaluationResult}
    → evaluate_authorization_step_up total cap percent x at now
        (run (record { challenges = [] }) calls)
      ≡ ok out
    → out.valid ≡ true
    → (total ≤ℤ cap) ⊎ Confirms calls x total (time_or_now at now)
unfolding evaluate_authorization_step_up evaluate_zone classify_step_up_zone
allowed_needs_confirmation calls total cap percent x at now done v =
    elim (Bool-cases (leb_ℤ total cap)) [
      | inl within ↦ inl (ground arith)
      | inr above ↦ elim (Result-cases (classify_step_up_zone total cap percent)) [
        | inr (e, bad) ↦ absurd (ground arith)
        | inl (res, good) ↦
            inr (zone_b_needs_confirmation calls res x total (time_or_now at now) (ground arith))
      ]
    ]
