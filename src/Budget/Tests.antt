-- ===== src/Budget/Tests.antt =====
-- The budget engine at concrete inputs: a mandate of 1000 paise a day, and a purchase of 400.
use mandate_gateway.Base.{◌≡◌, refl, ◌↔◌, true, false, none, some, List, [], ◌∷◌, err}
use mandate_gateway.Int.{pos, ◌+ℤ◌, ◌-ℤ◌, ◌≤ℤ◌}
use mandate_gateway.Dict.{lookup, insert}
use mandate_gateway.Dict.Values.{total}
use mandate_gateway.Types.{Currency, same_currency, BudgetState}
use mandate_gateway.Budget.{
  BudgetError, DailyBudget, daily_budget, BudgetReservation, budget_reservation, reserve_budget,
  commit_reservation, BudgetEngine,
}
use mandate_gateway.Budget.Engine.{register_budget, reserve, commit, release}
use mandate_gateway.Budget.Moves.{Move}
use mandate_gateway.Budget.Accounting.{held, settled, amount_if}
use mandate_gateway.Budget.Runs.{Call, step, run, run_never_overspends, step-Move}
use mandate_gateway.Budget.Finality.{settled_once}
use mandate_gateway.Budget.Decision.{allows, CanReserve, reserve_decision}

abbrev budget : DailyBudget
budget = record {
  mandate_id = "mandate-1";
  currency = Currency.inr;
  date_utc = "2026-01-01";
  daily_limit_paise = pos 1000;
  spent_paise = pos 100;
  reserved_paise = pos 0;
  created_at = pos 0;
  updated_at = pos 0;
}

abbrev engine : BudgetEngine
engine = record { budgets = ("mandate-1", budget) ∷ []; reservations = [] }

abbrev purchase : List Call
purchase =
    Call.reserves "mandate-1" "tx-1" (pos 400) Currency.inr (some "res-1") (pos 60) none "id"
      (pos 5)
    ∷ Call.commits "mandate-1" "res-1" none (pos 6)
    ∷ Call.reserves "mandate-1" "tx-2" (pos 500) Currency.inr (some "res-2") (pos 60) none "id"
        (pos 7)
    ∷ []

run_never_overspends_example :
    pos 100 +ℤ settled "mandate-1" (run engine purchase) +ℤ held "mandate-1" (run engine purchase)
    ≤ℤ pos 1000
unfolding register_budget daily_budget ◌+ℤ◌ insert
run_never_overspends_example =
    run_never_overspends "mandate-1" (pos 1000) (pos 100) Currency.inr (some "2026-01-01") "today"
      (pos 0) purchase refl

purchase_test :
    (settled "mandate-1" (run engine purchase) ≡ pos 400)
    × (held "mandate-1" (run engine purchase) ≡ pos 500)
unfolding run step total amount_if reserve commit reserve_budget commit_reservation
    budget_reservation lookup insert ◌+ℤ◌ ◌-ℤ◌ same_currency
purchase_test = (refl, refl)

abbrev reservation : BudgetState → BudgetReservation
reservation state = record {
  reservation_id = "res-1";
  transaction_id = "tx-1";
  mandate_id = "mandate-1";
  amount_paise = pos 400;
  currency = Currency.inr;
  state = state;
  created_at = pos 5;
  expires_at = pos 60_000_005;
  updated_at = pos 5;
}

abbrev holding : BudgetState → BudgetEngine
holding state = record {
  budgets = ("mandate-1", record budget { reserved_paise = pos 400 }) ∷ [];
  reservations = ("res-1", reservation state) ∷ [];
}

settled_once_example :
    (commit "mandate-1" "res-1" none (pos 9) (run (holding BudgetState.committed) purchase)
      ≡ (err BudgetError.double_commit, run (holding BudgetState.committed) purchase))
    × (release "mandate-1" "res-1" none (pos 9) (run (holding BudgetState.committed) purchase)
        ≡ (err BudgetError.release_committed, run (holding BudgetState.committed) purchase))
unfolding lookup
settled_once_example =
    settled_once (holding BudgetState.committed) purchase "res-1"
      (reservation BudgetState.committed) none (pos 9) refl refl

reserve_decision_example :
    ((allows
          (reserve "mandate-1" "tx-1"
            (pos 400)
            Currency.inr
            none
            (pos 60)
            none
            "id"
            (pos 5)
            engine).0
        ≡ true)
      ↔ CanReserve engine "mandate-1" "tx-1" (pos 400) Currency.inr "id")
    × (allows
            (reserve "mandate-1" "tx-1"
              (pos 400)
              Currency.inr
              none
              (pos 60)
              none
              "id"
              (pos 5)
              engine).0
          ≡ false
        → (reserve "mandate-1" "tx-1"
            (pos 400)
            Currency.inr
            none
            (pos 60)
            none
            "id"
            (pos 5)
            engine).1
          ≡ engine)
reserve_decision_example =
    reserve_decision "mandate-1" "tx-1" (pos 400) Currency.inr none (pos 60) none "id" (pos 5)
      engine

step-Move_example : Move engine (step engine (Call.commits "mandate-1" "res-1" none (pos 6)))
step-Move_example = step-Move engine (Call.commits "mandate-1" "res-1" none (pos 6))
