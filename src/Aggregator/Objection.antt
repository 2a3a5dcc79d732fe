-- ===== src/Aggregator/Objection.antt =====
-- For which control the aggregator rejects, and with which reason.
use mandate_gateway.Base.{
  String, ◌≡◌, ◌≢◌, refl, sym, ◌∙◌, ◌⊎◌, inl, inr, false, Option, none, some, List, [], ◌∷◌, ◌++◌,
  arith, get_or,
}
use mandate_gateway.Clock.{Time, time_or_now}
use mandate_gateway.Types.{PolicyDecision, RejectionReason}
use mandate_gateway.Aggregator.{
  SecurityControlOutcome, AuthorizationAggregationInput, Control, normalized, from_mandate,
  from_merchant_policy, aggregate, checks, reject, failure, policy_failure, optional_check,
}
use mandate_gateway.Ladder.{passing}
use mandate_gateway.Aggregator.Precedence.{rejects-FirstFailure}
use mandate_gateway.Aggregator.Decision.{
  Passes, PassesIfGiven, Present, failure_iff, not_reject_iff,
}

-- The control has not passed or decides REJECT; the reason is its own, if it gives one.
abbrev pub FailsWith : SecurityControlOutcome → RejectionReason → RejectionReason → Type 0
FailsWith o fallback reason =
    ((o.passed ≡ false) ⊎ (o.decision ≡ PolicyDecision.reject))
    × (reason ≡ get_or o.rejection_reason fallback)

-- the control, if its outcome is given
abbrev pub named_if : Option SecurityControlOutcome → Control → List Control
named_if none c = []
named_if (some o) c = c ∷ []

abbrev pub first_three : List Control
first_three =
    Control.mandate_scope_lifecycle ∷ Control.merchant_commerce_policy ∷ Control.cart_integrity ∷ []

-- The mandate and the cart pass, and the policy does not reject.
abbrev pub FirstThreePass : {i : AuthorizationAggregationInput} → Present i → Type 0
FirstThreePass p = Passes p.mandate × (p.policy.decision ≢ PolicyDecision.reject) × Passes p.cart

-- Objection i passed c reason: control `c` is the first, in the order of the module's documentation,
-- that speaks against the action, for `reason`, after the controls `passed`. Whether the mandate, the
-- policy and the cart were evaluated comes before what they say.
pub data Objection (i : AuthorizationAggregationInput)
    : List Control → Control → RejectionReason → Type 0 where
  no_mandate :
      normalized from_mandate i.mandate_outcome ≡ none
      → Objection i [] Control.mandate_scope_lifecycle RejectionReason.control_result_missing
  no_policy :
      (mandate : SecurityControlOutcome)
      → normalized from_mandate i.mandate_outcome ≡ some mandate
      → normalized from_merchant_policy i.merchant_policy_outcome ≡ none
      → Objection i [] Control.merchant_commerce_policy RejectionReason.control_result_missing
  no_cart :
      (mandate policy : SecurityControlOutcome)
      → normalized from_mandate i.mandate_outcome ≡ some mandate
      → normalized from_merchant_policy i.merchant_policy_outcome ≡ some policy
      → i.cart_integrity_outcome ≡ none
      → Objection i [] Control.cart_integrity RejectionReason.control_result_missing
  mandate_fails :
      (p : Present i) (reason : RejectionReason)
      → FailsWith p.mandate RejectionReason.mandate_not_active reason
      → Objection i [] Control.mandate_scope_lifecycle reason
  policy_rejects :
      (p : Present i)
      → Passes p.mandate
      → p.policy.decision ≡ PolicyDecision.reject
      → Objection i
          (Control.mandate_scope_lifecycle ∷ [])
          Control.merchant_commerce_policy
          (get_or p.policy.rejection_reason RejectionReason.operation_not_allowed)
  cart_fails :
      (p : Present i) (reason : RejectionReason)
      → Passes p.mandate
      → p.policy.decision ≢ PolicyDecision.reject
      → FailsWith p.cart RejectionReason.cart_integrity_violation reason
      → Objection i
          (Control.mandate_scope_lifecycle ∷ Control.merchant_commerce_policy ∷ [])
          Control.cart_integrity
          reason
  budget_fails :
      (p : Present i) (o : SecurityControlOutcome) (reason : RejectionReason)
      → FirstThreePass p
      → i.budget_outcome ≡ some o
      → FailsWith o RejectionReason.budget_insufficient reason
      → Objection i first_three Control.budget_reservation reason
  replay_fails :
      (p : Present i) (o : SecurityControlOutcome) (reason : RejectionReason)
      → FirstThreePass p
      → PassesIfGiven i.budget_outcome
      → i.replay_outcome ≡ some o
      → FailsWith o RejectionReason.replay_attempt_detected reason
      → Objection i
          (first_three ++ named_if i.budget_outcome Control.budget_reservation)
          Control.replay_protection
          reason
  nonce_fails :
      (p : Present i) (o : SecurityControlOutcome) (reason : RejectionReason)
      → FirstThreePass p
      → PassesIfGiven i.budget_outcome
      → PassesIfGiven i.replay_outcome
      → i.nonce_outcome ≡ some o
      → FailsWith o RejectionReason.nonce_already_consumed reason
      → Objection i
          (first_three
            ++ (named_if i.budget_outcome Control.budget_reservation
                ++ named_if i.replay_outcome Control.replay_protection))
          Control.nonce_validation
          reason

fails_lem :
    (o : SecurityControlOutcome) (fallback reason : RejectionReason)
    → FailsWith o fallback reason
    → failure o fallback ≡ some reason
unfolding failure
fails_lem o fallback reason (inl unpassed, same) = ground (arith, unpassed, same)
fails_lem o fallback reason (inr rejects, same) = ground (arith, rejects, same)

policy_lem :
    (o : SecurityControlOutcome) → o.decision ≢ PolicyDecision.reject → policy_failure o ≡ none
unfolding policy_failure
policy_lem o h = rw ((not_reject_iff o.decision).1 h) refl

policy_fails_lem :
    (o : SecurityControlOutcome)
    → o.decision ≡ PolicyDecision.reject
    → policy_failure o ≡ some (get_or o.rejection_reason RejectionReason.operation_not_allowed)
unfolding policy_failure
policy_fails_lem o h = rw h refl

-- The check of an outcome that may be given, where it passes.
pub optional_lem :
    (c : Control) (given : Option SecurityControlOutcome) (fallback : RejectionReason)
    → PassesIfGiven given
    → optional_check c given fallback ≡ passing (named_if given c)
unfolding optional_check
optional_lem c none fallback h = refl
optional_lem c (some o) fallback h = rw ((failure_iff o fallback).1 (h o refl)) refl

given_lem :
    (c : Control) (given : Option SecurityControlOutcome) (o : SecurityControlOutcome)
    (fallback reason : RejectionReason)
    → given ≡ some o
    → FailsWith o fallback reason
    → optional_check c given fallback ≡ (c, some reason) ∷ []
unfolding optional_check
given_lem c given o fallback reason e h = rw (e, fails_lem o fallback reason h) refl

passing-append :
    (xs ys : List Control) (rest : List (Control × Option RejectionReason))
    → passing (xs ++ ys) ++ rest ≡ passing xs ++ (passing ys ++ rest)
passing-append [] ys rest = refl
passing-append (x ∷ xs) ys rest = rw (passing-append xs ys rest) refl

-- the checks of the outcomes that may be given, from the budget, the replay protection and the nonce on
abbrev pub nonce_checks : AuthorizationAggregationInput → List (Control × Option RejectionReason)
nonce_checks i =
    optional_check Control.nonce_validation i.nonce_outcome RejectionReason.nonce_already_consumed

abbrev pub replay_checks : AuthorizationAggregationInput → List (Control × Option RejectionReason)
replay_checks i =
    optional_check Control.replay_protection i.replay_outcome
      RejectionReason.replay_attempt_detected
    ++ nonce_checks i

abbrev pub budget_checks : AuthorizationAggregationInput → List (Control × Option RejectionReason)
budget_checks i =
    optional_check Control.budget_reservation i.budget_outcome RejectionReason.budget_insufficient
    ++ replay_checks i

pub first_three_lem :
    {i : AuthorizationAggregationInput} (p : Present i)
    → FirstThreePass p
    → checks p.mandate p.policy p.cart i ≡ passing first_three ++ budget_checks i
unfolding checks
first_three_lem p (mandate, policy, cart) =
    rw
      (
        (failure_iff p.mandate RejectionReason.mandate_not_active).1 mandate,
        policy_lem p.policy policy,
        (failure_iff p.cart RejectionReason.cart_integrity_violation).1 cart,
      )
      refl

module _ (request_id : String) (i : AuthorizationAggregationInput) (at : Option Time)
    (now : Time) where
  -- a first failure of the checks, as what the aggregator answers
  answered :
      (p : Present i) (before : List Control) (c : Control) (reason : RejectionReason)
      (after : List (Control × Option RejectionReason))
      → checks p.mandate p.policy p.cart i ≡ passing before ++ (c, some reason) ∷ after
      → aggregate request_id i at now ≡ reject request_id (time_or_now at now) before c reason
  answered p before c reason after shape =
      rejects-FirstFailure request_id i at now p.mandate p.policy p.cart p.mandate_given
        p.policy_given p.cart_given
        (record { before = before; name = c; reason = reason; after = after; shape = shape })

  -- The aggregator rejects for the first control that speaks against the action, with that control's
  -- reason, and lists the controls before it as passed: a mandate, a policy or a cart that was not
  -- evaluated, and then the mandate, the policy, the cart, and the budget, the replay protection and
  -- the nonce where their outcomes are given, in this order.
  pub rejects-Objection :
      (passed : List Control) (c : Control) (reason : RejectionReason)
      → Objection i passed c reason
      → aggregate request_id i at now ≡ reject request_id (time_or_now at now) passed c reason
  unfolding aggregate checks
  rejects-Objection passed c reason (no_mandate h) = ground (arith, h)
  rejects-Objection passed c reason (no_policy mandate m h) = ground (arith, m, h)
  rejects-Objection passed c reason (no_cart mandate policy m p h) = ground (arith, m, p, h)
  rejects-Objection passed c reason (mandate_fails p r h) =
      answered p [] Control.mandate_scope_lifecycle r
        ((Control.merchant_commerce_policy, policy_failure p.policy)
          ∷ (Control.cart_integrity, failure p.cart RejectionReason.cart_integrity_violation)
          ∷ budget_checks i)
        (rw (fails_lem p.mandate RejectionReason.mandate_not_active r h) refl)
  rejects-Objection passed c reason (policy_rejects p m h) =
      answered p (Control.mandate_scope_lifecycle ∷ []) Control.merchant_commerce_policy
        (get_or p.policy.rejection_reason RejectionReason.operation_not_allowed)
        ((Control.cart_integrity, failure p.cart RejectionReason.cart_integrity_violation)
          ∷ budget_checks i)
        (rw
          (
            (failure_iff p.mandate RejectionReason.mandate_not_active).1 m,
            policy_fails_lem p.policy h,
          )
          refl)
  rejects-Objection passed c reason (cart_fails p r m o h) =
      answered p (Control.mandate_scope_lifecycle ∷ Control.merchant_commerce_policy ∷ [])
        Control.cart_integrity r (budget_checks i)
        (rw
          (
            (failure_iff p.mandate RejectionReason.mandate_not_active).1 m,
            policy_lem p.policy o,
            fails_lem p.cart RejectionReason.cart_integrity_violation r h,
          )
          refl)
  rejects-Objection passed c reason (budget_fails p o r first given h) =
      answered p first_three Control.budget_reservation r (replay_checks i) (
        rw
          (
            first_three_lem p first,
            given_lem Control.budget_reservation i.budget_outcome o
                RejectionReason.budget_insufficient r given h,
          )
          refl)
  rejects-Objection passed c reason (replay_fails p o r first budget given h) =
      let shape =
        first_three_lem p first
        ∙ rw
            (
              optional_lem Control.budget_reservation i.budget_outcome
                  RejectionReason.budget_insufficient budget,
              given_lem Control.replay_protection i.replay_outcome o
                  RejectionReason.replay_attempt_detected r given h,
            )
            (sym (
              passing-append first_three (named_if i.budget_outcome Control.budget_reservation)
                ((Control.replay_protection, some r) ∷ nonce_checks i))) in
      answered p (first_three ++ named_if i.budget_outcome Control.budget_reservation)
        Control.replay_protection r (nonce_checks i) shape
  rejects-Objection passed c reason (nonce_fails p o r first budget replay given h) =
      let earlier = named_if i.budget_outcome Control.budget_reservation in
      let later = named_if i.replay_outcome Control.replay_protection in
      let shape =
        first_three_lem p first
        ∙ rw
            (
              optional_lem Control.budget_reservation i.budget_outcome
                  RejectionReason.budget_insufficient budget,
              optional_lem Control.replay_protection i.replay_outcome
                  RejectionReason.replay_attempt_detected replay,
              given_lem Control.nonce_validation i.nonce_outcome o
                  RejectionReason.nonce_already_consumed r given h,
              passing-append first_three (earlier ++ later)
                  ((Control.nonce_validation, some r) ∷ []),
              passing-append earlier later ((Control.nonce_validation, some r) ∷ []),
            )
            refl in
      answered p (first_three ++ (earlier ++ later)) Control.nonce_validation r [] shape
