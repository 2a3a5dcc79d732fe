-- ===== src/Aggregator/Decision.antt =====
-- When the aggregator allows, and for which control it rejects.
use mandate_gateway.Base.{
  String, ◌≡◌, ◌≢◌, refl, ◌↔◌, inl, inr, true, false, Option, none, some, List, [], ◌∷◌, ◌++◌,
  arith, Option-cases, Bool-cases,
}
use mandate_gateway.Clock.{Time, time_or_now}
use mandate_gateway.Types.{PolicyDecision, RejectionReason, is_reject, is_step_up}
use mandate_gateway.Ladder.{AllPass, AllPass-append}
use mandate_gateway.Aggregator.{
  SecurityControlOutcome, AuthorizationAggregationInput, AggregatedAuthorizationResult, Control,
  normalized, from_mandate, from_merchant_policy, aggregate, aggregate_present, checks, run_checks,
  reject, failure, policy_failure, optional_check, required_diff, step_up_check,
}

abbrev pub Passes : SecurityControlOutcome → Type 0
Passes o = (o.passed ≡ true) × (o.decision ≢ PolicyDecision.reject)

abbrev pub PassesIfGiven : Option SecurityControlOutcome → Type 0
PassesIfGiven given = (o : SecurityControlOutcome) → given ≡ some o → Passes o

-- The mandate, the policy and the cart are evaluated and pass, the policy with ALLOW; the budget,
-- the replay protection and the nonce pass where they are evaluated; and no step-up is asked for
-- with a difference.
pub record Unanimous (i : AuthorizationAggregationInput) : Type 0 where
  pub mandate : SecurityControlOutcome
  pub mandate_given : normalized from_mandate i.mandate_outcome ≡ some mandate
  pub mandate_passes : Passes mandate
  pub policy : SecurityControlOutcome
  pub policy_given : normalized from_merchant_policy i.merchant_policy_outcome ≡ some policy
  pub policy_allows : policy.decision ≡ PolicyDecision.allow
  pub cart : SecurityControlOutcome
  pub cart_given : i.cart_integrity_outcome ≡ some cart
  pub cart_passes : Passes cart
  pub budget_passes : PassesIfGiven i.budget_outcome
  pub replay_passes : PassesIfGiven i.replay_outcome
  pub nonce_passes : PassesIfGiven i.nonce_outcome
  pub no_step_up :
      (o : SecurityControlOutcome)
      → i.step_up_outcome ≡ some o
      → o.decision ≡ PolicyDecision.step_up_required
      → o.step_up_diff ≡ none

pub not_reject_iff : (d : PolicyDecision) → (is_reject d ≡ false) ↔ (d ≢ PolicyDecision.reject)
not_reject_iff PolicyDecision.reject = (λ h. absurd (ground arith), λ h. absurd (h refl))
not_reject_iff PolicyDecision.allow = (λ h e. ground arith, λ h. refl)
not_reject_iff PolicyDecision.step_up_required = (λ h e. ground arith, λ h. refl)

pub failure_iff :
    (o : SecurityControlOutcome) (fallback : RejectionReason)
    → (failure o fallback ≡ none) ↔ Passes o
unfolding failure
failure_iff o fallback = (
  λ h. (ground arith, (not_reject_iff o.decision).0 (ground arith)),
  λ h. ground (arith, h.0, (not_reject_iff o.decision).1 h.1),
)

optional_check_iff :
    (c : Control) (given : Option SecurityControlOutcome) (fallback : RejectionReason)
    → AllPass (optional_check c given fallback) ↔ PassesIfGiven given
unfolding optional_check
optional_check_iff c none fallback = (λ h o e. absurd (ground arith), λ h. tt)
optional_check_iff c (some o) fallback = (
  λ h o' e. (failure_iff o' fallback).0 (ground (arith, h.0)),
  λ h. ((failure_iff o fallback).1 (h o refl), tt),
)

-- `finish` allows exactly under `F`
run_checks-allow :
    (F : Type 0) (request_id : String) (t : Time)
    (finish : List Control → AggregatedAuthorizationResult)
    → ((passed : List Control) → ((finish passed).decision ≡ PolicyDecision.allow) ↔ F)
    → (tests : List (Control × Option RejectionReason)) (passed : List Control)
    → ((run_checks request_id t tests passed finish).decision ≡ PolicyDecision.allow)
      ↔ (AllPass tests × F)
unfolding run_checks reject
run_checks-allow F request_id t finish at_end [] passed =
    (λ h. (tt, (at_end passed).0 h), λ h. (at_end passed).1 h.1)
run_checks-allow F request_id t finish at_end ((c, none) ∷ tests) passed =
    let rec = run_checks-allow F request_id t finish at_end tests (passed ++ c ∷ []) in
    (λ h. ((refl, (rec.0 h).0), (rec.0 h).1), λ h. rec.1 (h.0.1, h.1))
run_checks-allow F request_id t finish at_end ((c, some reason) ∷ tests) passed =
    (λ h. absurd (ground arith), λ h. absurd (ground arith))

-- check 8 allows
abbrev NoStepUp : SecurityControlOutcome → Option SecurityControlOutcome → Type 0
NoStepUp policy step_up = (is_step_up policy.decision ≡ false) × (required_diff step_up ≡ none)

step_up_check-allow :
    (policy : SecurityControlOutcome) (step_up : Option SecurityControlOutcome)
    (request_id : String) (t : Time) (passed : List Control)
    → ((step_up_check policy step_up request_id t passed).decision ≡ PolicyDecision.allow)
      ↔ NoStepUp policy step_up
unfolding step_up_check
step_up_check-allow policy step_up request_id t passed =
    (λ h. (ground arith, ground arith), λ h. ground (arith, h.0, h.1))

policy_iff :
    (o : SecurityControlOutcome)
    → ((policy_failure o ≡ none) × (is_step_up o.decision ≡ false))
      ↔ (o.decision ≡ PolicyDecision.allow)
unfolding policy_failure
policy_iff o = (λ h. ground (arith, h.0, h.1), λ h. (ground arith, ground arith))

required_diff_iff :
    (given : Option SecurityControlOutcome)
    → (required_diff given ≡ none) ↔ (
        (o : SecurityControlOutcome)
        → given ≡ some o
        → o.decision ≡ PolicyDecision.step_up_required
        → o.step_up_diff ≡ none)
unfolding required_diff
required_diff_iff none = (λ h o e d. absurd (ground arith), λ h. refl)
required_diff_iff (some o) = (
  λ h o' e d. ground arith,
  λ h. elim (Bool-cases (is_step_up o.decision)) [
    | inl asked ↦ ground (arith, h o refl (ground arith))
    | inr other ↦ ground arith
  ],
)

-- The three controls that must be present.
pub record Present (i : AuthorizationAggregationInput) : Type 0 where
  pub mandate : SecurityControlOutcome
  pub mandate_given : normalized from_mandate i.mandate_outcome ≡ some mandate
  pub policy : SecurityControlOutcome
  pub policy_given : normalized from_merchant_policy i.merchant_policy_outcome ≡ some policy
  pub cart : SecurityControlOutcome
  pub cart_given : i.cart_integrity_outcome ≡ some cart

module _ (request_id : String) (i : AuthorizationAggregationInput) (at : Option Time)
    (now : Time) where
  allow-Present : (aggregate request_id i at now).decision ≡ PolicyDecision.allow → Present i
  unfolding aggregate reject
  allow-Present h = elim (Option-cases (normalized from_mandate i.mandate_outcome)) [
    | inl missing ↦ absurd (ground arith)
    | inr (mandate, mandate_given) ↦
        elim (Option-cases (normalized from_merchant_policy i.merchant_policy_outcome)) [
          | inl missing ↦ absurd (ground arith)
          | inr (policy, policy_given) ↦ elim (Option-cases i.cart_integrity_outcome) [
            | inl missing ↦ absurd (ground arith)
            | inr (cart, cart_given) ↦ record {
              mandate = mandate;
              mandate_given = mandate_given;
              policy = policy;
              policy_given = policy_given;
              cart = cart;
              cart_given = cart_given;
            }
          ]
        ]
  ]

  pub aggregate-Present :
      (p : Present i)
      → aggregate request_id i at now
        ≡ aggregate_present p.mandate p.policy p.cart request_id i (time_or_now at now)
  unfolding aggregate
  aggregate-Present p = ground (arith, p.mandate_given, p.policy_given, p.cart_given)

  Present-allow :
      (p : Present i)
      → ((aggregate request_id i at now).decision ≡ PolicyDecision.allow)
        ↔ (AllPass (checks p.mandate p.policy p.cart i) × NoStepUp p.policy i.step_up_outcome)
  unfolding aggregate_present
  Present-allow p = rw (aggregate-Present p) (
      run_checks-allow (NoStepUp p.policy i.step_up_outcome) request_id (time_or_now at now)
        (step_up_check p.policy i.step_up_outcome request_id (time_or_now at now))
        (step_up_check-allow p.policy i.step_up_outcome request_id (time_or_now at now))
        (checks p.mandate p.policy p.cart i) [])

  optional_iff :
      AllPass (
        optional_check Control.budget_reservation i.budget_outcome
          RejectionReason.budget_insufficient
        ++ (optional_check Control.replay_protection i.replay_outcome
              RejectionReason.replay_attempt_detected
            ++ optional_check Control.nonce_validation i.nonce_outcome
                RejectionReason.nonce_already_consumed))
      ↔ (PassesIfGiven i.budget_outcome
          × PassesIfGiven i.replay_outcome
          × PassesIfGiven i.nonce_outcome)
  optional_iff =
      let budget =
        optional_check_iff Control.budget_reservation i.budget_outcome
          RejectionReason.budget_insufficient in
      let replay =
        optional_check_iff Control.replay_protection i.replay_outcome
          RejectionReason.replay_attempt_detected in
      let nonce =
        optional_check_iff Control.nonce_validation i.nonce_outcome
          RejectionReason.nonce_already_consumed in
      (
        λ h.
            let (b, rest) = (AllPass-append _ _).0 h in
            let (r, n) = (AllPass-append _ _).0 rest in (budget.0 b, replay.0 r, nonce.0 n),
        λ h.
            (AllPass-append _ _).1
              (budget.1 h.0, (AllPass-append _ _).1 (replay.1 h.1, nonce.1 h.2)),
      )

  only-Unanimous : (aggregate request_id i at now).decision ≡ PolicyDecision.allow → Unanimous i
  unfolding checks
  only-Unanimous h =
      let p = allow-Present h in
      let (passes, quiet) = (Present-allow p).0 h in
      let others = optional_iff.0 passes.1.1.1 in
      record {
        mandate = p.mandate;
        mandate_given = p.mandate_given;
        mandate_passes = (failure_iff p.mandate _).0 passes.0;
        policy = p.policy;
        policy_given = p.policy_given;
        policy_allows = (policy_iff p.policy).0 (passes.1.0, quiet.0);
        cart = p.cart;
        cart_given = p.cart_given;
        cart_passes = (failure_iff p.cart _).0 passes.1.1.0;
        budget_passes = others.0;
        replay_passes = others.1;
        nonce_passes = others.2;
        no_step_up = (required_diff_iff i.step_up_outcome).0 quiet.1;
      }

  Unanimous-allows : Unanimous i → (aggregate request_id i at now).decision ≡ PolicyDecision.allow
  unfolding checks
  Unanimous-allows u =
      let p : Present i = record {
        mandate = u.mandate;
        mandate_given = u.mandate_given;
        policy = u.policy;
        policy_given = u.policy_given;
        cart = u.cart;
        cart_given = u.cart_given;
      } in
      let policy = (policy_iff u.policy).1 u.policy_allows in
      (Present-allow p).1 (
        (
          (failure_iff u.mandate _).1 u.mandate_passes,
          (
            policy.0,
            (
              (failure_iff u.cart _).1 u.cart_passes,
              optional_iff.1 (u.budget_passes, u.replay_passes, u.nonce_passes),
            ),
          ),
        ),
        (policy.1, (required_diff_iff i.step_up_outcome).1 u.no_step_up),
      )

  -- The aggregator allows exactly if the mandate, the policy and the cart are present and pass, the
  -- policy with ALLOW, the outcomes of the budget, the replay protection and the nonce pass where
  -- they are given, and a step-up outcome that asks for a step-up, where one is given, has no
  -- difference. So, unlike what the module's documentation promises, a missing outcome of the last
  -- four does not stop it.
  pub allow_iff_Unanimous :
      ((aggregate request_id i at now).decision ≡ PolicyDecision.allow) ↔ Unanimous i
  allow_iff_Unanimous = (only-Unanimous, Unanimous-allows)
