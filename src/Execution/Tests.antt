-- ===== src/Execution/Tests.antt =====
-- The execution service at concrete inputs: one payment, whose outcome is unknown at first.
use mandate_gateway.Base.{◌≤◌, ◌≡◌, refl, false, none, some, List, [], ◌∷◌, inl, err}
use mandate_gateway.Int.{pos}
use mandate_gateway.Dict.{lookup, insert}
use mandate_gateway.Types.{
  Currency, RejectionReason, McpOperation, PolicyDecision, PaymentResultState, TransactionState,
  same_currency, is_blocked_by_default, is_terminal_state,
}
use mandate_gateway.Transaction.{Transaction, transition_transaction}
use mandate_gateway.Execution.{
  ExecutionFailureCategory, ExecutionError, reject_execution, ExecutionResult,
  PaymentExecuteProposalRequest, AuthorizationResult, PaymentExecutionService,
  verify_pre_execution_auth, controls, verify_context_and_operation, register_transaction,
}
use mandate_gateway.Execution.Service.{execute_payment, reconcile_payment_status}
use mandate_gateway.Execution.Rejection.{rejected_stays_authorized, reconcile_settled_raises}
use mandate_gateway.Execution.Once.{
  Call, step, run, new_service, requests_for, dispatched_at_most_once,
}

abbrev authorized : Transaction
authorized = record {
  transaction_id = "tx";
  buyer_id = "buyer";
  merchant_id = "shop";
  mandate_id = "mandate";
  mandate_version = pos 1;
  policy_version = pos 1;
  cart_id = none;
  cart_hash = none;
  amount_paise = pos 400;
  currency = Currency.inr;
  state = TransactionState.authorized;
  rejection_reason = none;
  idempotency_key = "key";
  nonce = none;
  created_at = pos 1;
  updated_at = pos 1;
  step_up_required_at = none;
  step_up_approved_at = none;
  step_up_amount_paise = none;
  razorpay_order_id = none;
  razorpay_payment_id = none;
}

abbrev proposal : PaymentExecuteProposalRequest
proposal = record {
  transaction_id = "tx";
  merchant_id = "shop";
  buyer_id = "buyer";
  mandate_id = "mandate";
  amount_paise = pos 400;
  currency = Currency.inr;
  cart_hash = "ab";
  operation = McpOperation.create_order;
}

abbrev authorization : AuthorizationResult
authorization = record {
  decision = PolicyDecision.allow;
  rejection_reason = none;
  control_outcomes =
      ("MANDATE_EVALUATION", PolicyDecision.allow)
      ∷ ("MERCHANT_POLICY", PolicyDecision.allow)
      ∷ ("CART_INTEGRITY", PolicyDecision.allow)
      ∷ ("BUDGET_RESERVATION", PolicyDecision.allow)
      ∷ ("REPLAY_PROTECTION", PolicyDecision.allow)
      ∷ ("NONCE_VALIDATION", PolicyDecision.allow)
      ∷ [];
}

abbrev timed_out : ExecutionResult
timed_out = record {
  success = false;
  transaction_id = "tx";
  state = TransactionState.executing;
  external_reference = none;
  failure_code = none;
  failure_category = none;
  idempotent_replay = false;
  provider_status = some PaymentResultState.unknown;
  executed_at = pos 2;
}

abbrev calls : List Call
calls =
    Call.executes proposal authorization authorized timed_out none (pos 2)
    ∷ Call.executes proposal authorization authorized timed_out (some timed_out) (pos 3)
    ∷ Call.reconciles "tx" none (some timed_out) (pos 4)
    ∷ []

dispatched_at_most_once_example : requests_for "tx" (run new_service calls).dispatched ≤ 1
dispatched_at_most_once_example = dispatched_at_most_once "tx" calls

calls_test : requests_for "tx" (run new_service calls).dispatched ≡ 1
unfolding requests_for run step reconcile_payment_status lookup execute_payment
    verify_pre_execution_auth controls insert verify_context_and_operation same_currency
    is_blocked_by_default transition_transaction register_transaction is_terminal_state
calls_test = refl

rejected_stays_authorized_example :
    ((reject_execution authorized RejectionReason.invalid_amount
        ExecutionFailureCategory.invalid_context
        (pos 2)
        new_service).1.transactions
      ≡ [])
    × ((reject_execution authorized RejectionReason.invalid_amount
          ExecutionFailureCategory.invalid_context
          (pos 2)
          new_service).0.state
        ≡ TransactionState.rejected)
rejected_stays_authorized_example =
    rejected_stays_authorized authorized RejectionReason.invalid_amount
      ExecutionFailureCategory.invalid_context (pos 2) new_service refl

abbrev paid : PaymentExecutionService
paid = record new_service {
  transactions = ("tx", record authorized { state = TransactionState.committed }) ∷ [];
}

abbrev succeeded : ExecutionResult
succeeded = record timed_out { provider_status = some PaymentResultState.success }

reconcile_settled_raises_example :
    reconcile_payment_status "tx" none (some succeeded) (pos 4) paid
    ≡ (err ExecutionError.illegal_transition, paid)
unfolding lookup
reconcile_settled_raises_example =
    reconcile_settled_raises "tx" (record authorized { state = TransactionState.committed }) none
      succeeded (pos 4) paid refl (inl refl) refl
