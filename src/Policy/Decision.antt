-- ===== src/Policy/Decision.antt =====
-- The decisions of `PolicyEngine.evaluate`.
use mandate_gateway.Base.{
  ◌≡◌, ◌≢◌, refl, ◌↔◌, Option, none, some, List, [], ◌∷◌, ◌++◌, arith, Result, ok, err,
}
use mandate_gateway.Int.{pos, ◌≤ℤ◌, ◌<ℤ◌}
use mandate_gateway.Clock.{Time, time_or_now}
use mandate_gateway.Types.{PolicyDecision, RejectionReason}
use mandate_gateway.Iff.{both_iff, chain}
use mandate_gateway.Ladder.{AllPass}
use mandate_gateway.StepUp.{StepUpError, classify_step_up_zone, max_allowed_paise}
use mandate_gateway.Policy.{
  PolicyCheck, Purchase, PolicyEvaluationResult, reject_policy, by_zone, amount_check,
  run_policy_checks, policy_checks, evaluate_purchase,
}
use mandate_gateway.Policy.Eligible.{Eligible, checks_iff}

-- the decision, if the call returns
abbrev pub decision_of : Result StepUpError PolicyEvaluationResult → Option PolicyDecision
decision_of (ok r) = some r.decision
decision_of (err x) = none

run_policy_checks-decision :
    (q : Purchase) (d : PolicyDecision) (F : Type 0)
    → d ≢ PolicyDecision.reject
    → ((passed : List PolicyCheck) → (decision_of (amount_check q passed) ≡ some d) ↔ F)
    → (tests : List (PolicyCheck × Option RejectionReason)) (passed : List PolicyCheck)
    → (decision_of (run_policy_checks q tests passed) ≡ some d) ↔ (AllPass tests × F)
unfolding run_policy_checks reject_policy
run_policy_checks-decision q d F other at_end [] passed =
    (λ h. (tt, (at_end passed).0 h), λ h. (at_end passed).1 h.1)
run_policy_checks-decision q d F other at_end ((check, none) ∷ rest) passed =
    let rec = run_policy_checks-decision q d F other at_end rest (passed ++ check ∷ []) in
    (λ h. ((refl, (rec.0 h).0), (rec.0 h).1), λ h. rec.1 (h.0.1, h.1))
run_policy_checks-decision q d F other at_end ((check, some reason) ∷ rest) passed =
    (λ h. absurd (other (ground arith)), λ h. absurd (ground (arith, h.0.0)))

-- the total is in the zone of a step-up
abbrev pub InStepUpZone : Purchase → Type 0
InStepUpZone q =
    (q.mandate.maximum_amount_paise ≢ pos 0)
    × (q.mandate.maximum_amount_paise <ℤ q.cart.total_paise)
    × (q.cart.total_paise
        ≤ℤ max_allowed_paise q.mandate.maximum_amount_paise q.merchant_policy.max_step_up_percent)

module _ (q : Purchase) (total_bound : pos 0 ≤ℤ q.cart.total_paise)
    (cap_bound : pos 0 ≤ℤ q.mandate.maximum_amount_paise) where
  allow_iff :
      (passed : List PolicyCheck)
      → (decision_of (amount_check q passed) ≡ some PolicyDecision.allow)
        ↔ (q.cart.total_paise ≤ℤ q.mandate.maximum_amount_paise)
  unfolding amount_check by_zone reject_policy classify_step_up_zone
  allow_iff passed = (λ h. ground arith, λ h. ground arith)

  step_up_iff :
      (passed : List PolicyCheck)
      → (decision_of (amount_check q passed) ≡ some PolicyDecision.step_up_required)
        ↔ InStepUpZone q
  unfolding amount_check by_zone reject_policy classify_step_up_zone
  step_up_iff passed =
      (λ h. (λ e. ground arith, ground arith, ground arith), λ h. ground (arith, h.1, h.2))

  -- For a total and a cap that are not negative, the engine allows a purchase exactly if it is
  -- eligible and its total is at most the mandate's cap; and it asks for a step-up exactly if the
  -- purchase is eligible, the cap is not zero, and the total is above the cap and at most the cap
  -- raised by the policy's percentage, rounded down. The policy's step_up_threshold_paise is not
  -- read: a total above it is allowed without a step-up.
  pub purchase_decision :
      (at : Option Time) (now : Time)
      → ((decision_of (evaluate_purchase q at now) ≡ some PolicyDecision.allow) ↔ (
          Eligible q (time_or_now at now) × (q.cart.total_paise ≤ℤ q.mandate.maximum_amount_paise)))
        × ((decision_of (evaluate_purchase q at now) ≡ some PolicyDecision.step_up_required)
            ↔ (Eligible q (time_or_now at now) × InStepUpZone q))
  unfolding evaluate_purchase
  purchase_decision at now =
      let t = time_or_now at now in
      let run =
        λ (d : PolicyDecision) (F : Type 0) (other : d ≢ PolicyDecision.reject)
            (at_end : (passed : List PolicyCheck)
              → (decision_of (amount_check q passed) ≡ some d) ↔ F).
          chain (run_policy_checks-decision q d F other at_end (policy_checks q t) [])
            (both_iff (checks_iff q t) (λ h. h, λ h. h)) in
      (
        run PolicyDecision.allow (q.cart.total_paise ≤ℤ q.mandate.maximum_amount_paise)
            (λ e. ground arith) allow_iff,
        run PolicyDecision.step_up_required (InStepUpZone q) (λ e. ground arith) step_up_iff,
      )
