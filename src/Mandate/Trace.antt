-- ===== src/Mandate/Trace.antt =====
-- The trace that an evaluation leaves.
use mandate_gateway.Base.{
  Bool, ap, ◌∙◌, ◌↔◌, arith, eq_iff, if◌then◌else◌, Option-cases, ◌≡◌, refl, ◌⊎◌, inl, inr, true,
  false, Option, none, some, List, [], ◌∷◌, ◌++◌, map,
}
use mandate_gateway.Clock.{Time, time_or_now}
use mandate_gateway.Int.{◌≤ℤ◌, ◌<ℤ◌, ltb_ℤ}
use mandate_gateway.Types.{MandateStatus, RejectionReason, same_currency}
use mandate_gateway.Ladder.{append_assoc, append_nil, passing}
use mandate_gateway.Cart.{Cart, CommerceIntent}
use mandate_gateway.Mandate.{BuyerMandate, authorizes_region, authorizes_amount}
use mandate_gateway.Mandate.Scope.{
  MerchantInScope, CategoryInScope, merchant_iff, category_iff, region_iff,
}
use mandate_gateway.Mandate.Evaluator.{
  Rule, MandateEvaluationResult, evaluate, evaluate_rules, evaluation, rules,
  MandateRuleEvaluationStep, status_rule, autonomous_rule, validity_rule, buyer_rule, merchant_rule,
  currency_rule, region_rule, category_rule, amount_rule, eval_amount_paise,
}

abbrev pub passed_step : Rule → MandateRuleEvaluationStep
passed_step rule = record { rule_name = rule; passed = true }

abbrev pub failed_step : Rule → MandateRuleEvaluationStep
failed_step rule = record { rule_name = rule; passed = false }

evaluate_rules-passing :
    (m : BuyerMandate) (t : Time) (names : List Rule) (steps : List MandateRuleEvaluationStep)
    → evaluate_rules m t (passing names) steps
      ≡ evaluation m none (steps ++ map passed_step names) t
unfolding evaluate_rules
evaluate_rules-passing m t [] steps = rw (append_nil steps) refl
evaluate_rules-passing m t (a ∷ names) steps =
    rw
      (
        evaluate_rules-passing m t names (steps ++ passed_step a ∷ []),
        append_assoc steps (passed_step a ∷ []) (map passed_step names),
      )
      refl

evaluate_rules-failing :
    (m : BuyerMandate) (t : Time) (names : List Rule) (a : Rule) (reason : RejectionReason)
    (rest : List (Rule × Option RejectionReason)) (steps : List MandateRuleEvaluationStep)
    → evaluate_rules m t (passing names ++ (a, some reason) ∷ rest) steps
      ≡ evaluation m (some reason) (steps ++ (map passed_step names ++ failed_step a ∷ [])) t
unfolding evaluate_rules
evaluate_rules-failing m t [] a reason rest steps = refl
evaluate_rules-failing m t (n ∷ names) a reason rest steps =
    rw
      (
        evaluate_rules-failing m t names a reason rest (steps ++ passed_step n ∷ []),
        append_assoc steps (passed_step n ∷ []) (map passed_step names ++ failed_step a ∷ []),
      )
      refl

-- the rules in the order in which they are evaluated
abbrev pub rule_order : List Rule
rule_order =
    Rule.mandate_status ∷ Rule.autonomous_execution ∷ Rule.validity_window ∷ Rule.buyer_binding
    ∷ Rule.merchant_scope ∷ Rule.currency_allowed ∷ Rule.region_allowed ∷ Rule.category_scope
    ∷ Rule.amount_within_mandate_cap ∷ []

-- the reason for a status that is not ACTIVE
abbrev pub status_reason : MandateStatus → RejectionReason
status_reason MandateStatus.revoked = RejectionReason.mandate_revoked
status_reason MandateStatus.expired = RejectionReason.mandate_expired
status_reason _ = RejectionReason.mandate_not_active

status_lem :
    (s : MandateStatus) (r : RejectionReason) → status_rule s ≡ some r → r ≡ status_reason s
unfolding status_rule
status_lem MandateStatus.suspended r h = ground arith
status_lem MandateStatus.revoked r h = ground arith
status_lem MandateStatus.expired r h = ground arith
status_lem MandateStatus.draft r h = ground arith
status_lem MandateStatus.active r h = absurd (ground arith)

module _ (m : BuyerMandate) (i : CommerceIntent) (cart : Option Cart) (t : Time) where
  -- what a rule demands
  abbrev pub Meets : Rule → Type 0
  Meets Rule.mandate_status = m.status ≡ MandateStatus.active
  Meets Rule.autonomous_execution = m.autonomous_execution ≡ true
  Meets Rule.validity_window = (m.issued_at ≤ℤ t) × (t <ℤ m.expires_at)
  Meets Rule.buyer_binding = i.buyer_id ≡ m.buyer_id
  Meets Rule.merchant_scope = (m.merchant_scope ≡ []) ⊎ MerchantInScope m i cart
  Meets Rule.currency_allowed = i.currency ≡ m.currency
  Meets Rule.region_allowed = (m.allowed_regions ≡ []) ⊎ (authorizes_region m i.region ≡ true)
  Meets Rule.category_scope = (m.category_scope ≡ []) ⊎ CategoryInScope m i cart
  Meets Rule.amount_within_mandate_cap = eval_amount_paise i cart ≤ℤ m.maximum_amount_paise

  abbrev pub AllMeet : List Rule → Type 0
  AllMeet [] = Unit
  AllMeet (rule ∷ rest) = Meets rule × AllMeet rest

  -- the reason for which a rule that is not met rejects
  abbrev pub reason_for : Rule → RejectionReason
  reason_for Rule.mandate_status = status_reason m.status
  reason_for Rule.autonomous_execution = RejectionReason.autonomous_execution_disabled
  reason_for Rule.validity_window =
      if ltb_ℤ t m.issued_at
      then RejectionReason.mandate_ttl_expired
      else RejectionReason.mandate_expired
  reason_for Rule.buyer_binding = RejectionReason.mandate_not_in_scope
  reason_for Rule.merchant_scope = RejectionReason.merchant_not_in_scope
  reason_for Rule.currency_allowed = RejectionReason.currency_mismatch
  reason_for Rule.region_allowed = RejectionReason.region_not_allowed
  reason_for Rule.category_scope = RejectionReason.category_not_in_scope
  reason_for Rule.amount_within_mandate_cap = RejectionReason.amount_exceeds_mandate

  -- what the code finds for a rule
  verdict : Rule → Option RejectionReason
  verdict Rule.mandate_status = status_rule m.status
  verdict Rule.autonomous_execution = autonomous_rule m
  verdict Rule.validity_window = validity_rule m t
  verdict Rule.buyer_binding = buyer_rule m i
  verdict Rule.merchant_scope = merchant_rule m i cart
  verdict Rule.currency_allowed = currency_rule m i
  verdict Rule.region_allowed = region_rule m i
  verdict Rule.category_scope = category_rule m i cart
  verdict Rule.amount_within_mandate_cap = amount_rule m i cart

  verdict_iff : (rule : Rule) → (verdict rule ≡ none) ↔ Meets rule
  unfolding verdict status_rule autonomous_rule validity_rule buyer_rule currency_rule amount_rule
      same_currency authorizes_amount
  verdict_iff Rule.mandate_status = (λ h. ground arith, λ h. ground (arith, h))
  verdict_iff Rule.autonomous_execution = (λ h. ground arith, λ h. ground (arith, h))
  verdict_iff Rule.validity_window =
      (λ h. (ground arith, ground arith), λ h. ground (arith, h.0, h.1))
  verdict_iff Rule.buyer_binding = (
    λ h. ground (arith, eq_iff i.buyer_id m.buyer_id),
    λ h. ground (arith, h, eq_iff i.buyer_id m.buyer_id),
  )
  verdict_iff Rule.merchant_scope = merchant_iff m i cart
  verdict_iff Rule.currency_allowed = (λ h. ground arith, λ h. ground (arith, h))
  verdict_iff Rule.region_allowed = region_iff m i cart
  verdict_iff Rule.category_scope = category_iff m i cart
  verdict_iff Rule.amount_within_mandate_cap = (λ h. ground arith, λ h. ground (arith, h))

  verdict_reason : (rule : Rule) (r : RejectionReason) → verdict rule ≡ some r → r ≡ reason_for rule
  unfolding verdict status_rule autonomous_rule validity_rule buyer_rule currency_rule amount_rule
      merchant_rule region_rule category_rule
  verdict_reason Rule.mandate_status r h = status_lem m.status r h
  verdict_reason Rule.autonomous_execution r h = ground arith
  verdict_reason Rule.validity_window r h = ground arith
  verdict_reason Rule.buyer_binding r h = ground arith
  verdict_reason Rule.merchant_scope r h = ground arith
  verdict_reason Rule.currency_allowed r h = ground arith
  verdict_reason Rule.region_allowed r h = ground arith
  verdict_reason Rule.category_scope r h = ground arith
  verdict_reason Rule.amount_within_mandate_cap r h = ground arith

  abbrev verdicts : List Rule → List (Rule × Option RejectionReason)
  verdicts [] = []
  verdicts (rule ∷ rest) = (rule, verdict rule) ∷ verdicts rest

  -- The rules before `rule` are met, and it is not.
  pub record FirstUnmet (rules_left : List Rule) : Type 0 where
    pub before : List Rule
    pub rule : Rule
    pub after : List Rule
    pub order : rules_left ≡ before ++ rule ∷ after
    pub met : AllMeet before
    pub unmet : ¬ Meets rule

  walk :
      (names : List Rule)
      → (AllMeet names × (verdicts names ≡ passing names))
        ⊎ ((f : FirstUnmet names) × (verdicts names
              ≡ passing f.before ++ (f.rule, some (reason_for f.rule)) ∷ verdicts f.after))
  walk [] = inl (tt, refl)
  walk (rule ∷ rest) = elim (Option-cases (verdict rule)) [
    | inr (r, fails) ↦ inr (
      record {
        before = [];
        rule = rule;
        after = rest;
        order = refl;
        met = tt;
        unmet = λ h. ground (arith, (verdict_iff rule).1 h, fails);
      },
      rw (fails, verdict_reason rule r fails) refl,
    )
    | inl passes ↦
        let meets = (verdict_iff rule).0 passes in
        elim (walk rest) [
          | inl (met, e) ↦ inl ((meets, met), rw (passes, e) refl)
          | inr (f, e) ↦ inr (
            record {
              before = rule ∷ f.before;
              rule = f.rule;
              after = f.after;
              order = ap (λ l. rule ∷ l) f.order;
              met = (meets, f.met);
              unmet = f.unmet;
            },
            rw (passes, e) refl,
          )
        ]
  ]

-- the result with this reason, if it rejects, and these steps
abbrev pub result :
    BuyerMandate
    → Bool
    → Option RejectionReason
    → List MandateRuleEvaluationStep
    → Time
    → MandateEvaluationResult
result m valid reason steps t = record {
  valid = valid;
  mandate_id = m.mandate_id;
  buyer_id = m.buyer_id;
  status = m.status;
  rejection_reason = reason;
  evaluated_rules = steps;
  evaluated_at = t;
}

-- The nine rules are evaluated in their order. If all are met, the evaluation is valid and its trace
-- is the nine rules, passed. Otherwise it rejects for the first rule that is not met, with the
-- reason of that rule, and its trace is the rules before it, passed, and that rule, failed.
pub trace_of_evaluation :
    (m : BuyerMandate) (i : CommerceIntent) (cart : Option Cart) (at : Option Time) (now : Time)
    → let t = time_or_now at now in
      (AllMeet m i cart t rule_order
        × (evaluate m i cart at now ≡ result m true none (map passed_step rule_order) t))
      ⊎ ((f : FirstUnmet m i cart t rule_order) × (evaluate m i cart at now
            ≡ result m false
                (some (reason_for m i cart t f.rule))
                (map passed_step f.before ++ failed_step f.rule ∷ [])
                t))
unfolding evaluate rules evaluation verdict
trace_of_evaluation m i cart at now =
    let t = time_or_now at now in
    elim (walk m i cart t rule_order) [
      | inl (met, e) ↦
          inl (met, ap (λ l. evaluate_rules m t l []) e ∙ evaluate_rules-passing m t rule_order [])
      | inr (f, e) ↦ inr (
        f,
        ap (λ l. evaluate_rules m t l []) e
            ∙ evaluate_rules-failing m t f.before f.rule (reason_for m i cart t f.rule)
                (verdicts m i cart t f.after) [],
      )
    ]
