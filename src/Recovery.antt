-- ===== src/Recovery.antt =====
-- apps/api/domain/reconciliation.py: `audit_budget_reservations`. A transaction of the audit is a dict of texts; its state is given as the
-- member that the text is a value of.
pub mod Evidence
pub mod Released
mod Tests
use mandate_gateway.Base.{
  String, Bool, true, false, not, ◌&&◌, ◌||◌, Option, none, some, List, [], ◌∷◌, ◌++◌, str_eq,
  get_or, if◌then◌else◌, Action, ◌>>=◌, pure,
}
use mandate_gateway.Int.{ℤ, pos, ltb_ℤ}
use mandate_gateway.Dict.{Dict}
use mandate_gateway.Clock.{Time}
use mandate_gateway.Types.{BudgetState, PaymentResultState, PolicyDecision, TransactionState}
use mandate_gateway.Budget.{DailyBudget, BudgetReservation, BudgetEngine, BudgetError}
use mandate_gateway.Budget.Engine.{release}

-- the entries of a transaction's dict that the audit reads
pub record TransactionEntry : Type 0 where
  pub transaction_id : Option String
  pub mandate_id : Option String
  pub state : Option TransactionState

pub record OrphanedReservationRecord : Type 0 where
  pub mandate_id : String
  pub transaction_id : String
  pub amount_paise : ℤ
  pub released : Bool

abbrev pub is_text : Option String → String → Bool
is_text none s = false
is_text (some t) s = str_eq t s

abbrev pub has_succeeded : Option TransactionState → Bool
has_succeeded (some TransactionState.success) = true
has_succeeded (some TransactionState.completed) = true
has_succeeded _ = false

abbrev pub has_failed : Option TransactionState → Bool
has_failed (some TransactionState.failure) = true
has_failed (some TransactionState.rolled_back) = true
has_failed (some TransactionState.rejected) = true
has_failed _ = false

-- `tx_id in terminal_success_tx_ids`
unfoldable pub is_successful_id : String → List TransactionEntry → Bool
is_successful_id id [] = false
is_successful_id id (tx ∷ txs) =
    has_succeeded tx.state && is_text tx.transaction_id id || is_successful_id id txs

-- the first reservation of the transaction and the mandate
unfoldable pub reservation_of : String → String → Dict BudgetReservation → Option BudgetReservation
reservation_of tx m [] = none
reservation_of tx m ((id, r) ∷ rs) =
    let rest = reservation_of tx m rs in
    if str_eq r.transaction_id tx && str_eq r.mandate_id m then some r else rest

abbrev pub is_reserved_state : BudgetState → Bool
is_reserved_state BudgetState.reserved = true
is_reserved_state _ = false

-- the transaction of this entry belongs to the mandate, has failed and has not succeeded elsewhere
unfoldable pub is_stranded : List TransactionEntry → String → TransactionEntry → Bool
unfolding is_successful_id
is_stranded txs m tx =
    is_text tx.mandate_id m
    && (has_failed tx.state && not (is_successful_id (get_or tx.transaction_id "") txs))

abbrev pub Audit : Type 0
Audit = Action BudgetEngine BudgetError (List OrphanedReservationRecord)

-- the release of a reservation that was found
unfoldable pub release_orphan :
    String → DailyBudget → String → Time → Option BudgetReservation → Audit
release_orphan m budget tx now none = pure []
release_orphan m budget tx now (some r) =
    if is_reserved_state r.state then released_orphan else pure []
  where
    released_orphan : Audit
    released_orphan = do
      settled ← release m r.reservation_id none now
      pure (
          record {
            mandate_id = m;
            transaction_id = tx;
            amount_paise = budget.reserved_paise;
            released = true;
          }
          ∷ [])

-- the work for one mandate and one transaction
unfoldable pub audit_entry :
    List TransactionEntry → String → DailyBudget → Time → TransactionEntry → Audit
unfolding is_stranded release_orphan reservation_of
audit_entry txs m budget now tx e =
    if is_stranded txs m tx
    then release_orphan m budget (get_or tx.transaction_id "") now
        (reservation_of (get_or tx.transaction_id "") m e.reservations) e
    else pure [] e

unfoldable pub audit_entries :
    List TransactionEntry → String → DailyBudget → Time → List TransactionEntry → Audit
unfolding audit_entry
audit_entries txs m budget now [] = pure []
audit_entries txs m budget now (tx ∷ rest) = audit_entry txs m budget now tx >>= λ found.
    audit_entries txs m budget now rest >>= λ more. pure (found ++ more)

-- the loop over a copy of the budgets
unfoldable pub audit_mandates : List TransactionEntry → Time → Dict DailyBudget → Audit
unfolding audit_entries
audit_mandates txs now [] = pure []
audit_mandates txs now ((m, budget) ∷ budgets) =
    (if ltb_ℤ (pos 0) budget.reserved_paise then audit_entries txs m budget now txs else pure [])
    >>= λ found. audit_mandates txs now budgets >>= λ more. pure (found ++ more)

unfoldable pub audit_budget_reservations : List TransactionEntry → Time → Audit
unfolding audit_mandates
audit_budget_reservations txs now e = audit_mandates txs now e.budgets e
