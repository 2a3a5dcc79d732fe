-- ===== src/Execution/Rejection.antt =====
-- What a rejection, and a reconciliation after the end, leave in the store.
use mandate_gateway.Base.{String, ◌≡◌, refl, ◌⊎◌, inl, inr, Option, some, arith, err}
use mandate_gateway.Dict.{lookup}
use mandate_gateway.Clock.{Time}
use mandate_gateway.Types.{
  RejectionReason, PaymentResultState, TransactionState, can_transition_to, is_terminal_state,
}
use mandate_gateway.Transaction.{Transaction, transition_transaction}
use mandate_gateway.Execution.{
  ExecutionFailureCategory, ExecutionError, ExecutionResult, PaymentExecutionService,
  reject_execution, try_reject,
}
use mandate_gateway.Execution.Payment.{settle}
use mandate_gateway.Execution.Service.{
  reconcile_payment_status, fetch_and_resolve, resolve, resolve_as,
}

-- Rejecting an AUTHORIZED transaction records a REJECTED result, but leaves every stored transaction
-- as it was: the diagram has no such transition, and its exception is swallowed.
pub rejected_stays_authorized :
    (t : Transaction) (reason : RejectionReason) (category : ExecutionFailureCategory) (now : Time)
    (s : PaymentExecutionService)
    → t.state ≡ TransactionState.authorized
    → ((reject_execution t reason category now s).1.transactions ≡ s.transactions)
      × ((reject_execution t reason category now s).0.state ≡ TransactionState.rejected)
unfolding reject_execution try_reject transition_transaction can_transition_to
rejected_stays_authorized t reason category now s h = (ground (arith, h), refl)

-- Reconciling a COMMITTED or ROLLED_BACK transaction whose status is fetched as a success raises, and
-- changes nothing, even if its result is cached.
pub reconcile_settled_raises :
    (tid : String) (t : Transaction) (ref : Option String) (f : ExecutionResult) (now : Time)
    (s : PaymentExecutionService)
    → lookup tid s.transactions ≡ some t
    → (t.state ≡ TransactionState.committed) ⊎ (t.state ≡ TransactionState.rolled_back)
    → f.provider_status ≡ some PaymentResultState.success
    → reconcile_payment_status tid ref (some f) now s ≡ (err ExecutionError.illegal_transition, s)
unfolding reconcile_payment_status fetch_and_resolve resolve resolve_as settle
    transition_transaction can_transition_to is_terminal_state
reconcile_settled_raises tid t ref f now s known (inl committed) success =
    ground (arith, known, committed, success)
reconcile_settled_raises tid t ref f now s known (inr rolled_back) success =
    ground (arith, known, rolled_back, success)
