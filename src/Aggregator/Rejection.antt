-- ===== src/Aggregator/Rejection.antt =====
-- The aggregator rejects only for an objection.
use mathlib.Core.Path.{subst}
use mandate_gateway.Base.{
  String, ◌≡◌, ◌≢◌, refl, sym, ◌∙◌, ◌⊎◌, inl, inr, Option, none, some, List, [], ◌∷◌, ◌++◌, arith,
  get_or, true, Bool-cases, Option-cases, ap, ◌↔◌,
}
use mandate_gateway.Clock.{Time, time_or_now}
use mandate_gateway.Types.{PolicyDecision, RejectionReason, is_reject}
use mandate_gateway.Aggregator.{
  AggregatedAuthorizationResult, SecurityControlOutcome, AuthorizationAggregationInput, Control,
  step_up_check, run_checks, aggregate_present, normalized, from_mandate, from_merchant_policy,
  aggregate, checks, reject,
}
use mandate_gateway.Ladder.{passing, append_nil, append_assoc}
use mandate_gateway.Aggregator.Decision.{
  Passes, PassesIfGiven, Present, not_reject_iff, aggregate-Present,
}
use mandate_gateway.Aggregator.Objection.{
  FailsWith, named_if, first_three, FirstThreePass, Objection, no_mandate, no_policy, no_cart,
  mandate_fails, policy_rejects, cart_fails, budget_fails, replay_fails, nonce_fails, optional_lem,
  first_three_lem, rejects-Objection,
}

passing_append :
    (xs ys : List Control) → passing {B = RejectionReason} (xs ++ ys) ≡ passing xs ++ passing ys
passing_append [] ys = refl
passing_append (x ∷ xs) ys = rw (passing_append xs ys) refl

is_reject_lem : (d : PolicyDecision) → is_reject d ≡ true → d ≡ PolicyDecision.reject
is_reject_lem PolicyDecision.reject h = refl
is_reject_lem PolicyDecision.allow h = absurd (ground arith)
is_reject_lem PolicyDecision.step_up_required h = absurd (ground arith)

-- an outcome passes, or fails with a reason
verdict_of :
    (o : SecurityControlOutcome) (fallback : RejectionReason)
    → Passes o ⊎ ((reason : RejectionReason) × FailsWith o fallback reason)
verdict_of o fallback = elim (Bool-cases (is_reject o.decision)) [
  | inl rejects ↦
      inr (get_or o.rejection_reason fallback, (inr (is_reject_lem o.decision rejects), refl))
  | inr other ↦ elim (Bool-cases o.passed) [
    | inl passed ↦ inl (passed, (not_reject_iff o.decision).0 other)
    | inr unpassed ↦ inr (get_or o.rejection_reason fallback, (inl unpassed, refl))
  ]
]

optional_verdict :
    (given : Option SecurityControlOutcome) (fallback : RejectionReason)
    → PassesIfGiven given
      ⊎ ((o : SecurityControlOutcome) × (reason : RejectionReason) × (given ≡ some o)
          × FailsWith o fallback reason)
optional_verdict none fallback = inl (λ o e. absurd (ground arith))
optional_verdict (some o) fallback = elim (verdict_of o fallback) [
  | inl passes ↦ inl (λ q e. let same : o ≡ q = ground arith in rw (← same) passes)
  | inr (reason, fails) ↦ inr (o, reason, refl, fails)
]

run_checks-passing :
    (request_id : String) (t : Time) (names passed : List Control)
    (finish : List Control → AggregatedAuthorizationResult)
    → run_checks request_id t (passing names) passed finish ≡ finish (passed ++ names)
unfolding run_checks
run_checks-passing request_id t [] passed finish = rw (append_nil passed) refl
run_checks-passing request_id t (n ∷ names) passed finish =
    rw
      (
        run_checks-passing request_id t names (passed ++ n ∷ []) finish,
        append_assoc passed (n ∷ []) names,
      )
      refl

step_up_check-accepts :
    (policy : SecurityControlOutcome) (given : Option SecurityControlOutcome) (request_id : String)
    (t : Time) (passed : List Control)
    → (step_up_check policy given request_id t passed).decision ≢ PolicyDecision.reject
unfolding step_up_check
step_up_check-accepts policy given request_id t passed h = ground arith

module _ (request_id : String) (i : AuthorizationAggregationInput) (at : Option Time)
    (now : Time) where
  -- an objection, whatever it is
  abbrev AnyObjection : Type 0
  AnyObjection =
      (passed : List Control) × (c : Control) × (reason : RejectionReason) × Objection i passed c
        reason

  all_pass :
      (p : Present i)
      → FirstThreePass p
      → PassesIfGiven i.budget_outcome
      → PassesIfGiven i.replay_outcome
      → PassesIfGiven i.nonce_outcome
      → (aggregate request_id i at now).decision ≢ PolicyDecision.reject
  unfolding aggregate_present
  all_pass p first budget replay nonce =
      let t = time_or_now at now in
      let earlier = named_if i.budget_outcome Control.budget_reservation in
      let later = named_if i.replay_outcome Control.replay_protection in
      let last = named_if i.nonce_outcome Control.nonce_validation in
      let shape : checks p.mandate p.policy p.cart i
          ≡ passing (first_three ++ (earlier ++ (later ++ last))) =
        first_three_lem p first
        ∙ rw
            (
              optional_lem Control.budget_reservation i.budget_outcome
                  RejectionReason.budget_insufficient budget,
              optional_lem Control.replay_protection i.replay_outcome
                  RejectionReason.replay_attempt_detected replay,
              optional_lem Control.nonce_validation i.nonce_outcome
                  RejectionReason.nonce_already_consumed nonce,
              passing_append earlier (later ++ last),
              passing_append later last,
            )
            refl in
      rw
        (
          aggregate-Present request_id i at now p,
          shape,
          run_checks-passing request_id t (first_three ++ (earlier ++ (later ++ last))) []
              (step_up_check p.policy i.step_up_outcome request_id t),
        )
        (step_up_check-accepts p.policy i.step_up_outcome request_id t _)

  -- the first objection, among present outcomes
  first_reason :
      Present i → AnyObjection ⊎ ((aggregate request_id i at now).decision ≢ PolicyDecision.reject)
  first_reason p = elim (verdict_of p.mandate RejectionReason.mandate_not_active) [
    | inr (r, fails) ↦ inl (_, _, _, mandate_fails p r fails)
    | inl mandate ↦ elim (Bool-cases (is_reject p.policy.decision)) [
      | inl rejects ↦
          inl (_, _, _, policy_rejects p mandate (is_reject_lem p.policy.decision rejects))
      | inr other ↦
          let policy = (not_reject_iff p.policy.decision).0 other in
          elim (verdict_of p.cart RejectionReason.cart_integrity_violation) [
            | inr (r, fails) ↦ inl (_, _, _, cart_fails p r mandate policy fails)
            | inl cart ↦ optional_objection p (mandate, policy, cart)
          ]
    ]
  ]
    where
      optional_objection :
          (p : Present i)
          → FirstThreePass p
          → AnyObjection ⊎ ((aggregate request_id i at now).decision ≢ PolicyDecision.reject)
      optional_objection p first =
          elim (optional_verdict i.budget_outcome RejectionReason.budget_insufficient) [
            | inr (o, r, given, fails) ↦ inl (_, _, _, budget_fails p o r first given fails)
            | inl budget ↦
                elim (optional_verdict i.replay_outcome RejectionReason.replay_attempt_detected) [
                  | inr (o, r, given, fails) ↦
                      inl (_, _, _, replay_fails p o r first budget given fails)
                  | inl replay ↦
                      elim (optional_verdict i.nonce_outcome
                        RejectionReason.nonce_already_consumed) [
                          | inr (o, r, given, fails) ↦
                              inl (_, _, _, nonce_fails p o r first budget replay given fails)
                          | inl nonce ↦ inr (all_pass p first budget replay nonce)
                        ]
                ]
          ]

  objection_or_accepted :
      AnyObjection ⊎ ((aggregate request_id i at now).decision ≢ PolicyDecision.reject)
  objection_or_accepted = elim (Option-cases (normalized from_mandate i.mandate_outcome)) [
    | inl missing ↦ inl (_, _, _, no_mandate missing)
    | inr (mandate, m) ↦
        elim (Option-cases (normalized from_merchant_policy i.merchant_policy_outcome)) [
          | inl missing ↦ inl (_, _, _, no_policy mandate m missing)
          | inr (policy, p) ↦ elim (Option-cases i.cart_integrity_outcome) [
            | inl missing ↦ inl (_, _, _, no_cart mandate policy m p missing)
            | inr (cart, c) ↦ first_reason (record {
              mandate = mandate;
              mandate_given = m;
              policy = policy;
              policy_given = p;
              cart = cart;
              cart_given = c;
            })
          ]
        ]
  ]

  only_one :
      (passed passed' : List Control) (c c' : Control) (reason reason' : RejectionReason)
      → reject request_id (time_or_now at now) passed' c' reason'
        ≡ reject request_id (time_or_now at now) passed c reason
      → Objection i passed' c' reason'
      → Objection i passed c reason
  unfolding reject
  only_one passed passed' c c' reason reason' same ob =
      let p : passed' ≡ passed = ground arith in
      let q : c' ≡ c = ground arith in
      let r : reason' ≡ reason = ground arith in
      subst (λ x. Objection i passed c x) r
        (subst (λ x. Objection i passed x reason') q (subst (λ x. Objection i x c' reason') p ob))

  -- The aggregator rejects for a control and a reason, with a list of the controls passed, exactly if
  -- this control is the first that speaks against the action, for this reason, after these: first of
  -- all a mandate, a policy or a cart that was not evaluated, and then, in this order, the mandate, the
  -- policy, the cart, and the budget, the replay protection and the nonce where their outcomes are given.
  pub reject_iff_Objection :
      (passed : List Control) (c : Control) (reason : RejectionReason)
      → (aggregate request_id i at now ≡ reject request_id (time_or_now at now) passed c reason)
        ↔ Objection i passed c reason
  reject_iff_Objection passed c reason = (
    λ h. elim objection_or_accepted [
      | inl (passed', c', reason', ob) ↦
          only_one passed passed' c c' reason reason'
            (sym (rejects-Objection request_id i at now passed' c' reason' ob) ∙ h) ob
      | inr accepted ↦ absurd (
          accepted
            (ap (λ (x : AggregatedAuthorizationResult). x.decision) h ∙ unfold reject in refl))
    ],
    rejects-Objection request_id i at now passed c reason,
  )
