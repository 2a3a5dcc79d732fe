-- ===== src/Execution.antt =====
-- apps/api/domain/execution.py, and the in-memory part of `PaymentExecutionService` in
-- apps/api/domain/execution_engine.py. The payment adapter is outside: what it answers is an
-- argument of each call, `none` for an exception. `dispatched` logs the requests that were given to
-- it. Messages, redacted responses, the authorization reference and the idempotency key, which is
-- made of the transaction's identifier, are not modelled.
pub mod Payment
pub mod Service
pub mod Dispatch
pub mod Once
pub mod Rejection
mod Tests
use mandate_gateway.Base.{
  String, Bool, true, false, not, ◌&&◌, Option, none, some, List, [], ◌∷◌, str_eq, get_or,
  if◌then◌else◌, Result, ok, err,
}
use mandate_gateway.Int.{ℤ, eqb_ℤ}
use mandate_gateway.Text.{strip, lower, is_empty}
use mandate_gateway.Dict.{Dict, lookup, insert}
use mandate_gateway.Clock.{Time}
use mandate_gateway.Types.{
  Currency, same_currency, RejectionReason, PolicyDecision, McpOperation, PaymentResultState,
  TransactionState, is_allow, is_blocked_by_default, is_terminal_state,
}
use mandate_gateway.Transaction.{
  Transaction, Updates, no_updates, is_rejected, is_executable, transition_transaction,
}

pub data ExecutionFailureCategory : Type 0 where
  authorization_failed authentication_error validation_error : ExecutionFailureCategory
  rate_limit_exceeded timeout connection_failed : ExecutionFailureCategory
  provider_rejected idempotency_conflict unknown_provider_error : ExecutionFailureCategory
  invalid_context : ExecutionFailureCategory

pub data ExecutionError : Type 0 where
  provider_raised illegal_transition : ExecutionError

pub record TrustedExecutionRequest : Type 0 where
  pub transaction_id : String
  pub merchant_id : String
  pub buyer_id : String
  pub mandate_id : String
  pub amount_paise : ℤ
  pub currency : Currency
  pub cart_hash : String
  pub operation : McpOperation

pub record ExecutionResult : Type 0 where
  pub success : Bool
  pub transaction_id : String
  pub state : TransactionState
  pub external_reference : Option String
  pub failure_code : Option RejectionReason
  pub failure_category : Option ExecutionFailureCategory
  pub idempotent_replay : Bool
  pub provider_status : Option PaymentResultState
  pub executed_at : Time

pub record ExecutionAuditEvidence : Type 0 where
  pub transaction_id : String
  pub merchant_id : String
  pub buyer_id : String
  pub mandate_id : String
  pub operation : McpOperation
  pub amount_paise : ℤ
  pub currency : Currency
  pub execution_result_success : Bool
  pub external_reference : Option String
  pub failure_category : Option ExecutionFailureCategory
  pub provider_status : Option PaymentResultState

-- the fields of the proposal, and of the result of the authorization, that the service reads
pub record PaymentExecuteProposalRequest : Type 0 where
  pub transaction_id : String
  pub merchant_id : String
  pub buyer_id : String
  pub mandate_id : String
  pub amount_paise : ℤ
  pub currency : Currency
  pub cart_hash : String
  pub operation : McpOperation

pub record AuthorizationResult : Type 0 where
  pub decision : PolicyDecision
  pub rejection_reason : Option RejectionReason
  pub control_outcomes : List (String × PolicyDecision)

pub record PaymentExecutionService : Type 0 where
  pub transactions : Dict Transaction
  pub results : Dict ExecutionResult
  pub audit_events : List ExecutionAuditEvidence
  pub dispatched : List TrustedExecutionRequest

unfoldable pub register_transaction :
    Transaction → PaymentExecutionService → PaymentExecutionService
register_transaction t s = record s { transactions = insert t.transaction_id t s.transactions }

-- the updates of a rejection
abbrev pub because : RejectionReason → Updates
because reason = record no_updates { rejection_reason = some reason }

-- the transactions after an attempt to reject `t`, in which an exception is swallowed
unfoldable pub try_reject :
    Transaction → RejectionReason → Time → Dict Transaction → Dict Transaction
try_reject t reason now ts =
    if is_rejected t.state
    then ts
    else elim (transition_transaction t TransactionState.rejected (because reason) now) [
      | ok t' ↦ insert t.transaction_id t' ts
      | err x ↦ ts
    ]

unfoldable pub reject_execution :
    Transaction
    → RejectionReason
    → ExecutionFailureCategory
    → Time
    → PaymentExecutionService
    → ExecutionResult × PaymentExecutionService
unfolding try_reject
reject_execution t reason category now s = (
  res,
  record s {
    transactions = try_reject t reason now s.transactions;
    results = insert t.transaction_id res s.results;
  },
)
  where
    res : ExecutionResult
    res = record {
      success = false;
      transaction_id = t.transaction_id;
      state = TransactionState.rejected;
      external_reference = none;
      failure_code = some reason;
      failure_category = some category;
      idempotent_replay = false;
      provider_status = some PaymentResultState.failed;
      executed_at = now;
    }

-- `{c.control_name: c for c in control_outcomes}`: of equal names the last one counts
unfoldable pub controls : List (String × PolicyDecision) → Dict PolicyDecision → Dict PolicyDecision
controls [] d = d
controls ((name, decision) ∷ cs) d = controls cs (insert name decision d)

-- the outcome of the control is there, and allows
unfoldable pub satisfied : String → Dict PolicyDecision → Bool
satisfied name d = elim (lookup name d) [ none ↦ false | some decision ↦ is_allow decision ]

-- the loop over `required_controls`
unfoldable pub all_satisfied : List String → Dict PolicyDecision → Bool
unfolding satisfied
all_satisfied [] d = true
all_satisfied (name ∷ names) d = satisfied name d && all_satisfied names d

abbrev pub required_controls : List String
required_controls =
    "MANDATE_EVALUATION" ∷ "MERCHANT_POLICY" ∷ "CART_INTEGRITY" ∷ "BUDGET_RESERVATION"
    ∷ "REPLAY_PROTECTION" ∷ "NONCE_VALIDATION" ∷ []

-- the outcome of the control is there, and does not allow
unfoldable pub denied : String → Dict PolicyDecision → Bool
denied name d = elim (lookup name d) [ none ↦ false | some decision ↦ not (is_allow decision) ]

abbrev pub Refusal : Type 0
Refusal = Option (RejectionReason × ExecutionFailureCategory)

-- `_verify_pre_execution_auth`: why the execution is rejected, if it is
unfoldable pub verify_pre_execution_auth : AuthorizationResult → Refusal
unfolding all_satisfied denied
verify_pre_execution_auth auth =
    let d = controls auth.control_outcomes [] in
    if not (is_allow auth.decision)
    then some (
      get_or auth.rejection_reason RejectionReason.method_not_authorized,
      ExecutionFailureCategory.authorization_failed,
    )
    else if not (all_satisfied required_controls d)
    then some
        (RejectionReason.control_result_missing, ExecutionFailureCategory.authorization_failed)
    else if denied "STEP_UP_AUTHORIZATION" d
    then some (
      RejectionReason.step_up_confirmation_invalid, ExecutionFailureCategory.authorization_failed,
    )
    else none

-- the transaction has a cart hash, and the proposal has another
unfoldable pub cart_hash_differs : Option String → String → Bool
cart_hash_differs none given = false
cart_hash_differs (some h) given =
    not (is_empty h) && not (str_eq (lower (strip given)) (lower (strip h)))

-- `proposal.operation in allowed_ops`
unfoldable pub is_allowed_operation : McpOperation → Bool
is_allowed_operation McpOperation.create_order = true
is_allowed_operation McpOperation.create_payment_link = true
is_allowed_operation McpOperation.fetch_payment = true
is_allowed_operation _ = false

-- `_verify_context_and_operation`: why the execution is rejected, if it is
unfoldable pub verify_context_and_operation : PaymentExecuteProposalRequest → Transaction → Refusal
unfolding cart_hash_differs is_allowed_operation
verify_context_and_operation p t =
    if not (str_eq p.transaction_id t.transaction_id)
    then some (RejectionReason.invalid_transaction_state, ExecutionFailureCategory.invalid_context)
    else if not (str_eq p.merchant_id t.merchant_id)
    then some (RejectionReason.merchant_mismatch, ExecutionFailureCategory.invalid_context)
    else if not (str_eq p.buyer_id t.buyer_id)
    then some (RejectionReason.mandate_not_in_scope, ExecutionFailureCategory.invalid_context)
    else if not (str_eq p.mandate_id t.mandate_id)
    then some (RejectionReason.mandate_not_in_scope, ExecutionFailureCategory.invalid_context)
    else if not (eqb_ℤ p.amount_paise t.amount_paise)
    then some (RejectionReason.invalid_amount, ExecutionFailureCategory.invalid_context)
    else if not (same_currency p.currency t.currency)
    then some (RejectionReason.currency_mismatch, ExecutionFailureCategory.invalid_context)
    else if cart_hash_differs t.cart_hash p.cart_hash
    then some (RejectionReason.cart_integrity_violation, ExecutionFailureCategory.invalid_context)
    else if is_blocked_by_default p.operation
    then some (RejectionReason.operation_not_allowed, ExecutionFailureCategory.validation_error)
    else if not (is_allowed_operation p.operation)
    then some (RejectionReason.operation_not_allowed, ExecutionFailureCategory.validation_error)
    else none
