-- ===== src/Budget/Decision.antt =====
-- When `reserve` allows a reservation, and what a refusal leaves.
use mandate_gateway.Base.{
  String, ◌≡◌, ◌↔◌, inl, inr, Bool, true, false, Option, none, some, arith, Option-cases, Result,
  ok, err,
}
use mandate_gateway.Int.{ℤ, pos, ◌+ℤ◌, ◌≤ℤ◌, ◌<ℤ◌}
use mandate_gateway.Text.{is_empty}
use mandate_gateway.Dict.{lookup}
use mandate_gateway.Clock.{Time}
use mandate_gateway.Types.{Currency, same_currency, is_allow}
use mandate_gateway.Budget.{
  BudgetError, DailyBudget, BudgetEvaluationResult, BudgetEngine, budget_reservation,
  reserve_budget,
}
use mandate_gateway.Budget.Engine.{reserve, reserve_in, store_reservation, refused, id_or_new}

-- the call returned, and allowed the reservation
abbrev pub allows : Result BudgetError BudgetEvaluationResult → Bool
allows (ok res) = is_allow res.decision
allows (err x) = false

-- The conditions of a reservation of `amount` in budget `b` under the identifier `id`.
pub record CanReserve (e : BudgetEngine) (m t : String) (amount : ℤ) (c : Currency) (id : String)
    : Type 0 where
  pub budget : DailyBudget
  pub positive : pos 0 <ℤ amount
  pub known : lookup m e.budgets ≡ some budget
  pub currency : budget.currency ≡ c
  pub fresh : lookup id e.reservations ≡ none
  pub fits : budget.spent_paise +ℤ budget.reserved_paise +ℤ amount ≤ℤ budget.daily_limit_paise
  pub named : (is_empty t ≡ false) × (is_empty m ≡ false)

module _ (m t : String) (amount : ℤ) (c : Currency) (given : Option String) (ttl : ℤ)
    (at : Option Time) (uuid : String) (now : Time) (e : BudgetEngine) where
  allowed :
      CanReserve e m t amount c (id_or_new given uuid)
      → allows (reserve m t amount c given ttl at uuid now e).0 ≡ true
  unfolding reserve reserve_in store_reservation reserve_budget budget_reservation same_currency
  allowed h = ground arith

  only_if :
      allows (reserve m t amount c given ttl at uuid now e).0 ≡ true
      → CanReserve e m t amount c (id_or_new given uuid)
  unfolding reserve reserve_in store_reservation reserve_budget budget_reservation refused
      same_currency
  only_if h = elim (Option-cases (lookup m e.budgets)) [
    | inl unknown ↦ absurd (ground arith)
    | inr (b, known) ↦ record {
      budget = b;
      positive = ground arith;
      known = known;
      currency = ground arith;
      fresh = ground arith;
      fits = ground arith;
      named = (ground arith, ground arith);
    }
  ]

  -- A reservation is allowed exactly for a positive amount, in the currency of a registered budget,
  -- under a fresh identifier, within the limit, and between named parties; else nothing changes.
  pub reserve_decision :
      ((allows (reserve m t amount c given ttl at uuid now e).0 ≡ true)
        ↔ CanReserve e m t amount c (id_or_new given uuid))
      × (allows (reserve m t amount c given ttl at uuid now e).0 ≡ false
          → (reserve m t amount c given ttl at uuid now e).1 ≡ e)
  unfolding reserve reserve_in store_reservation reserve_budget budget_reservation
  reserve_decision = ((only_if, allowed), λ h. ground arith)
