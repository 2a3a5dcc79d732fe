-- ===== src/Execution/Payment.antt =====
-- `execute_payment` and `reconcile_payment_status` of `PaymentExecutionService`
-- (apps/api/domain/execution_engine.py), in memory.
use mandate_gateway.Base.{
  String, Bool, true, false, not, Option, none, some, [], ◌∷◌, ◌++◌, get_or, if◌then◌else◌, Result,
  ok, err,
}
use mandate_gateway.Text.{is_empty}
use mandate_gateway.Dict.{insert}
use mandate_gateway.Clock.{Time}
use mandate_gateway.Types.{RejectionReason, PaymentResultState, TransactionState}
use mandate_gateway.Transaction.{
  Transaction, Updates, no_updates, is_executable, transition_transaction,
}
use mandate_gateway.Execution.{
  ExecutionFailureCategory, ExecutionError, TrustedExecutionRequest, ExecutionResult,
  ExecutionAuditEvidence, PaymentExecuteProposalRequest, AuthorizationResult,
  PaymentExecutionService, register_transaction, reject_execution, verify_pre_execution_auth,
  verify_context_and_operation,
}

abbrev pub Outcome : Type 0
Outcome = Result ExecutionError ExecutionResult × PaymentExecutionService

abbrev pub is_unknown : Option PaymentResultState → Bool
is_unknown (some PaymentResultState.unknown) = true
is_unknown _ = false

-- `given or other`, for an optional text
abbrev pub text_or : Option String → String → String
text_or none other = other
text_or (some s) other = if is_empty s then other else s

abbrev pub with_order : Option String → Updates
with_order reference = record no_updates { razorpay_order_id = reference }

-- two transitions, one after the other
unfoldable pub settle :
    Transaction
    → TransactionState
    → Updates
    → TransactionState
    → Time
    → Result ExecutionError Transaction
settle t middle u last now = elim (transition_transaction t middle u now) [
  | err x ↦ err ExecutionError.illegal_transition
  | ok t' ↦ elim (transition_transaction t' last no_updates now) [
    | err x ↦ err ExecutionError.illegal_transition
    | ok t'' ↦ ok t''
  ]
]

-- the transaction after the answer of the provider
unfoldable pub settled_transaction :
    Transaction → ExecutionResult → Time → Result ExecutionError Transaction
unfolding settle
settled_transaction t answer now =
    if answer.success
    then settle t TransactionState.success (with_order answer.external_reference)
        TransactionState.committed now
    else if is_unknown answer.provider_status
    then ok t
    else settle t TransactionState.failure no_updates TransactionState.rolled_back now

-- the result that is recorded for the answer of the provider
unfoldable pub final_result : Transaction → ExecutionResult → ExecutionResult
final_result t answer =
    if answer.success
    then record answer {
      transaction_id = t.transaction_id;
      state = TransactionState.committed;
      failure_code = none;
      failure_category = none;
      idempotent_replay = false;
      provider_status = some PaymentResultState.success;
    }
    else if is_unknown answer.provider_status
    then record answer {
      transaction_id = t.transaction_id;
      state = TransactionState.executing;
      failure_code = some (get_or answer.failure_code RejectionReason.authorization_expired);
      failure_category = some (get_or answer.failure_category ExecutionFailureCategory.timeout);
      idempotent_replay = false;
    }
    else record answer {
      transaction_id = t.transaction_id;
      state = TransactionState.rolled_back;
      failure_code = some (get_or answer.failure_code RejectionReason.method_not_authorized);
      idempotent_replay = false;
      provider_status = some (get_or answer.provider_status PaymentResultState.failed);
    }

unfoldable pub trusted_request :
    PaymentExecuteProposalRequest → Transaction → TrustedExecutionRequest
trusted_request p t = record {
  transaction_id = t.transaction_id;
  merchant_id = t.merchant_id;
  buyer_id = t.buyer_id;
  mandate_id = t.mandate_id;
  amount_paise = t.amount_paise;
  currency = t.currency;
  cart_hash = text_or t.cart_hash p.cart_hash;
  operation = p.operation;
}

unfoldable pub evidence :
    PaymentExecuteProposalRequest → Transaction → ExecutionResult → ExecutionAuditEvidence
evidence p t res = record {
  transaction_id = t.transaction_id;
  merchant_id = t.merchant_id;
  buyer_id = t.buyer_id;
  mandate_id = t.mandate_id;
  operation = p.operation;
  amount_paise = t.amount_paise;
  currency = t.currency;
  execution_result_success = res.success;
  external_reference = res.external_reference;
  failure_category = res.failure_category;
  provider_status = res.provider_status;
}

-- Steps 7 and 8, for an answer of the provider: `ex` is `t` in EXECUTING.
unfoldable pub record_outcome :
    PaymentExecuteProposalRequest
    → Transaction
    → Transaction
    → ExecutionResult
    → Time
    → PaymentExecutionService
    → Outcome
unfolding settled_transaction final_result evidence
record_outcome p t ex answer now s = elim (settled_transaction ex answer now) [
  | err x ↦ (err x, s)
  | ok done ↦ (
    ok (final_result ex answer),
    record s {
      transactions = insert t.transaction_id done s.transactions;
      results = insert t.transaction_id (final_result ex answer) s.results;
      audit_events = s.audit_events ++ evidence p t (final_result ex answer) ∷ [];
    },
  )
]

-- Steps 5 to 8: the request is built and dispatched.
unfoldable pub dispatch :
    PaymentExecuteProposalRequest
    → Transaction
    → Transaction
    → Option ExecutionResult
    → Time
    → PaymentExecutionService
    → Outcome
unfolding record_outcome trusted_request
dispatch p t ex answer now s = elim answer [
  | none ↦ (err ExecutionError.provider_raised, sent)
  | some a ↦ record_outcome p t ex a now sent
]
  where
    sent : PaymentExecutionService
    sent = record s {
      transactions = insert t.transaction_id ex s.transactions;
      dispatched = trusted_request p ex ∷ s.dispatched;
    }

-- a rejection as the outcome of the call
unfoldable pub rejecting :
    Transaction
    → RejectionReason × ExecutionFailureCategory
    → Time
    → PaymentExecutionService
    → Outcome
unfolding reject_execution
rejecting t why now s = let (res, s') = reject_execution t why.0 why.1 now s in (ok res, s')

-- Step 4: AUTHORIZED is claimed as EXECUTING.
unfoldable pub claim :
    PaymentExecuteProposalRequest
    → Transaction
    → Option ExecutionResult
    → Time
    → PaymentExecutionService
    → Outcome
unfolding dispatch rejecting is_executable
claim p t answer now s =
    if not (is_executable t)
    then rejecting t bad_state now s
    else elim (transition_transaction t TransactionState.executing no_updates now) [
      | err x ↦ rejecting t bad_state now s
      | ok ex ↦ dispatch p t ex answer now s
    ]
  where
    bad_state : RejectionReason × ExecutionFailureCategory
    bad_state =
        (RejectionReason.invalid_transaction_state, ExecutionFailureCategory.invalid_context)

-- the part of `execute_payment` after the test for an earlier result
unfoldable pub execute_new :
    PaymentExecuteProposalRequest
    → AuthorizationResult
    → Transaction
    → Option ExecutionResult
    → Time
    → PaymentExecutionService
    → Outcome
unfolding claim rejecting
execute_new p auth t answer now s = elim (verify_pre_execution_auth auth) [
  | some why ↦ rejecting t why now (register_transaction t s)
  | none ↦ elim (verify_context_and_operation p t) [
    | some why ↦ rejecting t why now (register_transaction t s)
    | none ↦ claim p t answer now (register_transaction t s)
  ]
]
