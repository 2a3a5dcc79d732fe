-- ===== src/Budget/Engine.antt =====
-- The in-memory methods of `BudgetEngine` (apps/api/domain/budget_engine.py).
use mandate_gateway.Base.{
  String, true, false, not, ◌||◌, Option, none, some, [], str_eq, get_or, if◌then◌else◌, Result, ok,
  err, Action, pure, gets, or_raise, raise_if, lift, modify, ◌>>=◌, ◌>>◌,
}
use mandate_gateway.Int.{ℤ, pos, ◌+ℤ◌, ltb_ℤ, leb_ℤ}
use mandate_gateway.Text.{is_empty}
use mandate_gateway.Dict.{lookup, insert, contains}
use mandate_gateway.Clock.{Time, add_seconds, time_or_now}
use mandate_gateway.Types.{Currency, same_currency, BudgetState, PolicyDecision, RejectionReason}
use mandate_gateway.Budget.{
  BudgetError, DailyBudget, daily_budget, available_paise, BudgetReservation, budget_reservation,
  reserve_budget, commit_reservation, release_reservation, BudgetEvaluationResult, BudgetEngine,
}

-- `BudgetEngine.__init__`
abbrev pub new_engine : BudgetEngine
new_engine = record { budgets = []; reservations = [] }

-- `today` is what `now.strftime("%Y-%m-%d")` gives.
unfoldable pub register_budget :
    String
    → ℤ
    → Currency
    → Option String
    → ℤ
    → ℤ
    → String
    → Time
    → Action BudgetEngine BudgetError DailyBudget
register_budget mandate_id limit currency date_utc spent reserved today now = do
  raise_if (ltb_ℤ limit (pos 0)) BudgetError.negative_limit
  raise_if (ltb_ℤ spent (pos 0) || ltb_ℤ reserved (pos 0)) BudgetError.negative_amounts
  raise_if (ltb_ℤ limit (spent +ℤ reserved)) BudgetError.over_limit
  let date = get_or date_utc today
  budget ← lift (daily_budget mandate_id currency date limit spent reserved now)
  modify (λ e. record e { budgets = insert mandate_id budget e.budgets })
  pure budget

-- The `BudgetEvaluationResult` of a refusal.
unfoldable pub refused : String → ℤ → ℤ → RejectionReason → Time → BudgetEvaluationResult
refused mandate_id amount available reason eval_time = record {
  valid = false;
  decision = PolicyDecision.reject;
  mandate_id = mandate_id;
  requested_paise = amount;
  available_paise = available;
  reservation = none;
  rejection_reason = some reason;
  evaluated_at = eval_time;
}

-- `reservation_id if reservation_id else _new_uuid()`
abbrev pub id_or_new : Option String → String → String
id_or_new none uuid = uuid
id_or_new (some s) uuid = if is_empty s then uuid else s

-- The fields that `reserve` gives a reservation.
abbrev pub new_reservation : String → String → ℤ → Currency → String → ℤ → Time → BudgetReservation
new_reservation mandate_id transaction_id amount currency res_id ttl eval_time = record {
  reservation_id = res_id;
  transaction_id = transaction_id;
  mandate_id = mandate_id;
  amount_paise = amount;
  currency = currency;
  state = BudgetState.reserved;
  created_at = eval_time;
  expires_at = add_seconds eval_time ttl;
  updated_at = eval_time;
}

-- The end of `reserve`: the new budget and the reservation are built, then both are stored.
unfoldable pub store_reservation :
    DailyBudget
    → String
    → String
    → ℤ
    → Currency
    → String
    → ℤ
    → Time
    → Time
    → Action BudgetEngine BudgetError BudgetEvaluationResult
store_reservation budget mandate_id transaction_id amount currency res_id ttl eval_time now = do
  updated ← lift (reserve_budget budget amount now)
  reservation ← lift (
      budget_reservation
        (new_reservation mandate_id transaction_id amount currency res_id ttl eval_time))
  modify (λ e. record e {
    budgets = insert mandate_id updated e.budgets;
    reservations = insert res_id reservation e.reservations;
  })
  pure (record {
    valid = true;
    decision = PolicyDecision.allow;
    mandate_id = mandate_id;
    requested_paise = amount;
    available_paise = available_paise updated;
    reservation = some reservation;
    rejection_reason = none;
    evaluated_at = eval_time;
  })

-- `reserve`, from the test of the currency on, for the budget that was found
unfoldable pub reserve_in :
    DailyBudget
    → String
    → String
    → ℤ
    → Currency
    → String
    → ℤ
    → Time
    → Time
    → Action BudgetEngine BudgetError BudgetEvaluationResult
reserve_in budget mandate_id transaction_id amount currency res_id ttl eval_time now e =
    if not (same_currency budget.currency currency)
    then pure (refuse RejectionReason.budget_currency_mismatch) e
    else if contains res_id e.reservations
    then pure (refuse RejectionReason.invalid_transaction_state) e
    else if ltb_ℤ budget.daily_limit_paise (budget.spent_paise +ℤ budget.reserved_paise +ℤ amount)
    then pure (refuse RejectionReason.budget_exceeded) e
    else store_reservation budget mandate_id transaction_id amount currency res_id ttl eval_time now
        e
  where
    refuse : RejectionReason → BudgetEvaluationResult
    refuse reason = refused mandate_id amount (available_paise budget) reason eval_time

unfoldable pub reserve :
    String
    → String
    → ℤ
    → Currency
    → Option String
    → ℤ
    → Option Time
    → String
    → Time
    → Action BudgetEngine BudgetError BudgetEvaluationResult
unfolding reserve_in store_reservation
reserve mandate_id transaction_id amount currency reservation_id ttl at uuid now e =
    if leb_ℤ amount (pos 0)
    then pure (refused mandate_id amount (pos 0) RejectionReason.invalid_amount eval_time) e
    else elim (lookup mandate_id e.budgets) [
      | none ↦ pure (refused mandate_id amount (pos 0) RejectionReason.budget_exceeded eval_time) e
      | some budget ↦
          reserve_in budget mandate_id transaction_id amount currency
            (id_or_new reservation_id uuid) ttl eval_time now e
    ]
  where
    eval_time : Time
    eval_time = time_or_now at now

-- the tests of `commit` on the reservation's state
unfoldable pub committable : BudgetState → Result BudgetError Unit
committable BudgetState.committed = err BudgetError.double_commit
committable BudgetState.released = err BudgetError.commit_released
committable BudgetState.expired = err BudgetError.commit_expired
committable BudgetState.reserved = ok tt
committable _ = err BudgetError.commit_bad_state

unfoldable pub commit :
    String → String → Option Time → Time → Action BudgetEngine BudgetError BudgetReservation
unfolding committable
commit mandate_id reservation_id at now = do
  found ← gets (λ e. lookup reservation_id e.reservations)
  reservation ← or_raise found BudgetError.not_found
  raise_if (not (str_eq reservation.mandate_id mandate_id)) BudgetError.wrong_mandate
  lift (committable reservation.state)
  known ← gets (λ e. lookup mandate_id e.budgets)
  budget ← or_raise known BudgetError.no_budget
  updated ← lift (commit_reservation budget reservation.amount_paise now)
  let settled = record reservation {
    state = BudgetState.committed;
    updated_at = time_or_now at now;
  }
  modify (λ e. record e {
    budgets = insert mandate_id updated e.budgets;
    reservations = insert reservation_id settled e.reservations;
  })
  pure settled

-- the tests of `release` on the reservation's state
unfoldable pub releasable : BudgetState → Result BudgetError Unit
releasable BudgetState.released = err BudgetError.double_release
releasable BudgetState.committed = err BudgetError.release_committed
releasable BudgetState.reserved = ok tt
releasable BudgetState.expired = ok tt
releasable _ = err BudgetError.release_bad_state

unfoldable pub release :
    String → String → Option Time → Time → Action BudgetEngine BudgetError BudgetReservation
unfolding releasable
release mandate_id reservation_id at now = do
  found ← gets (λ e. lookup reservation_id e.reservations)
  reservation ← or_raise found BudgetError.not_found
  raise_if (not (str_eq reservation.mandate_id mandate_id)) BudgetError.wrong_mandate
  lift (releasable reservation.state)
  known ← gets (λ e. lookup mandate_id e.budgets)
  budget ← or_raise known BudgetError.no_budget
  updated ← lift (release_reservation budget reservation.amount_paise now)
  let settled = record reservation { state = BudgetState.released; updated_at = time_or_now at now }
  modify (λ e. record e {
    budgets = insert mandate_id updated e.budgets;
    reservations = insert reservation_id settled e.reservations;
  })
  pure settled
