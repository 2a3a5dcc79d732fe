-- ===== src/Aggregator/Precedence.antt =====
-- For which control the aggregator rejects, and what it makes of the step-up engine's outcome.
use mandate_gateway.Base.{
  String, ◌≡◌, refl, sym, ◌∙◌, inl, inr, Option, none, some, List, [], ◌∷◌, ◌++◌, arith,
  Option-cases,
}
use mandate_gateway.Clock.{Time, time_or_now}
use mandate_gateway.Types.{RejectionReason}
use mandate_gateway.Ladder.{append_assoc, append_nil, passing, FirstFailure}
use mandate_gateway.StepUp.{StepUpEvaluationResult}
use mandate_gateway.Aggregator.{
  SecurityControlOutcome, AuthorizationAggregationInput, AggregatedAuthorizationResult, Control,
  normalized, from_mandate, from_merchant_policy, aggregate, aggregate_present, checks, run_checks,
  reject, required_diff, step_up_check,
}
use mandate_gateway.Aggregator.Outcomes.{step_up_control_outcome}

run_checks-failing :
    (request_id : String) (t : Time) (names : List Control) (c : Control) (reason : RejectionReason)
    (rest : List (Control × Option RejectionReason)) (passed : List Control)
    (finish : List Control → AggregatedAuthorizationResult)
    → run_checks request_id t (passing names ++ (c, some reason) ∷ rest) passed finish
      ≡ reject request_id t (passed ++ names) c reason
unfolding run_checks
run_checks-failing request_id t [] c reason rest passed finish = rw (append_nil passed) refl
run_checks-failing request_id t (n ∷ names) c reason rest passed finish =
    rw
      (
        run_checks-failing request_id t names c reason rest (passed ++ n ∷ []) finish,
        append_assoc passed (n ∷ []) names,
      )
      refl

aggregate-present :
    (request_id : String) (i : AuthorizationAggregationInput) (at : Option Time) (now : Time)
    (mandate policy cart : SecurityControlOutcome)
    → normalized from_mandate i.mandate_outcome ≡ some mandate
    → normalized from_merchant_policy i.merchant_policy_outcome ≡ some policy
    → i.cart_integrity_outcome ≡ some cart
    → aggregate request_id i at now
      ≡ aggregate_present mandate policy cart request_id i (time_or_now at now)
unfolding aggregate
aggregate-present request_id i at now mandate policy cart m p c = ground (arith, m, p, c)

-- With the mandate, the policy and the cart evaluated, the aggregator rejects for the first control,
-- in its order, that fails, with that control's reason, whatever the later ones and the step-up
-- say; the controls before it are the checks passed.
pub rejects-FirstFailure :
    (request_id : String) (i : AuthorizationAggregationInput) (at : Option Time) (now : Time)
    (mandate policy cart : SecurityControlOutcome)
    → normalized from_mandate i.mandate_outcome ≡ some mandate
    → normalized from_merchant_policy i.merchant_policy_outcome ≡ some policy
    → i.cart_integrity_outcome ≡ some cart
    → (f : FirstFailure (checks mandate policy cart i))
    → aggregate request_id i at now
      ≡ reject request_id (time_or_now at now) f.before f.name f.reason
unfolding aggregate_present
rejects-FirstFailure request_id i at now mandate policy cart m p c f =
    aggregate-present request_id i at now mandate policy cart m p c
    ∙ rw f.shape (
        run_checks-failing request_id (time_or_now at now) f.before f.name f.reason f.after []
          (step_up_check policy i.step_up_outcome request_id (time_or_now at now)))

run_checks-same :
    (request_id : String) (t : Time) (finish finish' : List Control → AggregatedAuthorizationResult)
    → ((passed : List Control) → finish passed ≡ finish' passed)
    → (tests : List (Control × Option RejectionReason)) (passed : List Control)
    → run_checks request_id t tests passed finish ≡ run_checks request_id t tests passed finish'
unfolding run_checks
run_checks-same request_id t finish finish' h [] passed = h passed
run_checks-same request_id t finish finish' h ((c, none) ∷ tests) passed =
    run_checks-same request_id t finish finish' h tests (passed ++ c ∷ [])
run_checks-same request_id t finish finish' h ((c, some reason) ∷ tests) passed = refl

step_up_check-same :
    (policy : SecurityControlOutcome) (given : Option SecurityControlOutcome) (request_id : String)
    (t : Time) (passed : List Control)
    → required_diff given ≡ none
    → step_up_check policy given request_id t passed ≡ step_up_check policy none request_id t passed
unfolding step_up_check required_diff
step_up_check-same policy given request_id t passed h = ground (arith, h)

no_diff : (res : StepUpEvaluationResult) → required_diff (some (step_up_control_outcome res)) ≡ none
unfolding required_diff step_up_control_outcome
no_diff res = ground arith

-- The outcome that a result of the step-up engine is converted to never changes the decision,
-- though the result may ask for a human or reject: the aggregation is the one without it.
pub step_up_outcome_ignored :
    (request_id : String) (i : AuthorizationAggregationInput) (at : Option Time) (now : Time)
    (res : StepUpEvaluationResult)
    → aggregate request_id
        (record i { step_up_outcome = some (step_up_control_outcome res) })
        at
        now
      ≡ aggregate request_id (record i { step_up_outcome = none }) at now
unfolding aggregate aggregate_present checks
step_up_outcome_ignored request_id i at now res =
    let given = some (step_up_control_outcome res) in
    let t = time_or_now at now in
    elim (Option-cases (normalized from_mandate i.mandate_outcome)) [
      | inl missing ↦ ground (arith, missing)
      | inr (mandate, m) ↦
          elim (Option-cases (normalized from_merchant_policy i.merchant_policy_outcome)) [
            | inl missing ↦ ground (arith, missing, m)
            | inr (policy, p) ↦ elim (Option-cases i.cart_integrity_outcome) [
              | inl missing ↦ ground (arith, missing, m, p)
              | inr (cart, c) ↦
                  let same =
                    run_checks-same request_id t (step_up_check policy given request_id t)
                      (step_up_check policy none request_id t)
                      (λ passed. step_up_check-same policy given request_id t passed (no_diff res))
                      (checks mandate policy cart i) [] in
                  aggregate-present request_id (record i { step_up_outcome = given }) at now mandate
                    policy cart m p c
                  ∙ (same
                      ∙ sym (
                          aggregate-present request_id (record i { step_up_outcome = none }) at now
                            mandate policy cart m p c))
            ]
          ]
    ]
