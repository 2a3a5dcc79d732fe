-- ===== src/Budget.antt =====
-- apps/api/domain/budget.py, and the functions and the in-memory methods of `BudgetEngine` in
-- apps/api/domain/budget_engine.py. Every method runs under the mandate's lock and is one step.
-- Message texts, `budget_id` and the lock table are not modelled; each `raise` has its own error,
-- and a pydantic constructor raises `validation`. A random identifier is the argument `uuid`.
pub mod Engine
pub mod Moves
pub mod Accounting
pub mod Runs
pub mod Decision
pub mod Finality
mod Tests
use mandate_gateway.Base.{
  String, Bool, true, false, not, ◌||◌, Option, none, some, str_eq, if◌then◌else◌, Result, ok, err,
  Action, pure, gets, or_raise, raise_if, lift, modify, ◌>>=◌, ◌>>◌,
}
use mandate_gateway.Int.{ℤ, pos, ◌+ℤ◌, ◌-ℤ◌, ltb_ℤ, leb_ℤ}
use mandate_gateway.Text.{is_empty}
use mandate_gateway.Dict.{Dict, lookup, insert, contains}
use mandate_gateway.Clock.{Time, add_seconds, time_or_now}
use mandate_gateway.Types.{Currency, same_currency, BudgetState, PolicyDecision, RejectionReason}

pub data BudgetError : Type 0 where
  validation negative_limit negative_amounts over_limit not_positive insufficient : BudgetError
  commit_too_much release_too_much not_found wrong_mandate no_budget : BudgetError
  double_commit commit_released commit_expired commit_bad_state : BudgetError
  double_release release_committed release_bad_state : BudgetError

pub record DailyBudget : Type 0 where
  pub mandate_id : String
  pub currency : Currency
  pub date_utc : String
  pub daily_limit_paise : ℤ
  pub spent_paise : ℤ
  pub reserved_paise : ℤ
  pub created_at : Time
  pub updated_at : Time

-- the constructor, with its field bounds and `_validate_budget_invariant`
unfoldable pub daily_budget :
    String → Currency → String → ℤ → ℤ → ℤ → Time → Result BudgetError DailyBudget
daily_budget mandate_id currency date_utc limit spent reserved now =
    if is_empty mandate_id
      || ltb_ℤ limit (pos 0)
      || ltb_ℤ spent (pos 0)
      || ltb_ℤ reserved (pos 0)
      || ltb_ℤ limit (spent +ℤ reserved)
    then err BudgetError.validation
    else ok (record {
      mandate_id = mandate_id;
      currency = currency;
      date_utc = date_utc;
      daily_limit_paise = limit;
      spent_paise = spent;
      reserved_paise = reserved;
      created_at = now;
      updated_at = now;
    })

abbrev pub available_paise : DailyBudget → ℤ
available_paise b = b.daily_limit_paise -ℤ b.spent_paise -ℤ b.reserved_paise

pub record BudgetReservation : Type 0 where
  pub reservation_id : String
  pub transaction_id : String
  pub mandate_id : String
  pub amount_paise : ℤ
  pub currency : Currency
  pub state : BudgetState
  pub created_at : Time
  pub expires_at : Time
  pub updated_at : Time

-- the constructor's field bounds
unfoldable pub budget_reservation : BudgetReservation → Result BudgetError BudgetReservation
budget_reservation r =
    if is_empty r.transaction_id || is_empty r.mandate_id || ltb_ℤ r.amount_paise (pos 0)
    then err BudgetError.validation
    else ok r

unfoldable pub assert_can_reserve : DailyBudget → ℤ → Result BudgetError Unit
assert_can_reserve b paise =
    if leb_ℤ paise (pos 0)
    then err BudgetError.not_positive
    else if ltb_ℤ b.daily_limit_paise (b.spent_paise +ℤ b.reserved_paise +ℤ paise)
    then err BudgetError.insufficient
    else ok tt

-- `assert_can_reserve` raises, or the copy is returned.
unfoldable pub reserve_budget : DailyBudget → ℤ → Time → Result BudgetError DailyBudget
unfolding assert_can_reserve
reserve_budget b paise now = elim (assert_can_reserve b paise) [
  | ok _ ↦ ok (record b { reserved_paise = b.reserved_paise +ℤ paise; updated_at = now })
  | err x ↦ err x
]

unfoldable pub commit_reservation : DailyBudget → ℤ → Time → Result BudgetError DailyBudget
commit_reservation b paise now =
    if ltb_ℤ b.reserved_paise paise
    then err BudgetError.commit_too_much
    else ok (record b {
      reserved_paise = b.reserved_paise -ℤ paise;
      spent_paise = b.spent_paise +ℤ paise;
      updated_at = now;
    })

unfoldable pub release_reservation : DailyBudget → ℤ → Time → Result BudgetError DailyBudget
release_reservation b paise now =
    if ltb_ℤ b.reserved_paise paise
    then err BudgetError.release_too_much
    else ok (record b { reserved_paise = b.reserved_paise -ℤ paise; updated_at = now })

pub record BudgetEvaluationResult : Type 0 where
  pub valid : Bool
  pub decision : PolicyDecision
  pub mandate_id : String
  pub requested_paise : ℤ
  pub available_paise : ℤ
  pub reservation : Option BudgetReservation
  pub rejection_reason : Option RejectionReason
  pub evaluated_at : Time

pub record BudgetEngine : Type 0 where
  pub budgets : Dict DailyBudget
  pub reservations : Dict BudgetReservation
