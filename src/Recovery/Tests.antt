-- ===== src/Recovery/Tests.antt =====
-- The audit at a concrete engine: one reservation of a transaction that was rolled back.
use mandate_gateway.Base.{◌≡◌, refl, true, some, ok, List, [], ◌∷◌}
use mandate_gateway.Int.{pos, int_laws}
use mandate_gateway.Types.{BudgetState, Currency, TransactionState}
use mandate_gateway.Dict.{lookup}
use mandate_gateway.Budget.{DailyBudget, BudgetReservation, BudgetEngine, release_reservation}
use mandate_gateway.Budget.Engine.{release}
use mandate_gateway.Budget.Accounting.{IsSound}
use mandate_gateway.Recovery.{TransactionEntry, audit_budget_reservations}
use mandate_gateway.Recovery.Released.{Releases, audit_budget_reservations-Releases}

abbrev entries : List TransactionEntry
entries =
    record {
      transaction_id = some "tx";
      mandate_id = some "mandate";
      state = some TransactionState.rolled_back;
    }
    ∷ []

abbrev budget : DailyBudget
budget = record {
  mandate_id = "mandate";
  currency = Currency.inr;
  date_utc = "2026-01-01";
  daily_limit_paise = pos 100;
  spent_paise = pos 20;
  reserved_paise = pos 40;
  created_at = pos 1;
  updated_at = pos 1;
}

abbrev reservation : BudgetReservation
reservation = record {
  reservation_id = "r1";
  transaction_id = "tx";
  mandate_id = "mandate";
  amount_paise = pos 40;
  currency = Currency.inr;
  state = BudgetState.reserved;
  created_at = pos 1;
  expires_at = pos 100;
  updated_at = pos 1;
}

abbrev engine : BudgetEngine
engine = record { budgets = ("mandate", budget) ∷ []; reservations = ("r1", reservation) ∷ [] }

engine-IsSound : IsSound engine
engine-IsSound = record { within = (omega int_laws, tt); positive = (omega int_laws, tt) }

released :
    (audit_budget_reservations entries (pos 9) engine).0
    ≡ ok (
        record {
          mandate_id = "mandate";
          transaction_id = "tx";
          amount_paise = pos 40;
          released = true;
        }
        ∷ [])
unfolding audit_budget_reservations release lookup release_reservation
released = refl

audit_budget_reservations-Releases_example :
    Releases entries (pos 9) engine (audit_budget_reservations entries (pos 9) engine).1
    × IsSound (audit_budget_reservations entries (pos 9) engine).1
audit_budget_reservations-Releases_example =
    audit_budget_reservations-Releases entries (pos 9) engine engine-IsSound
