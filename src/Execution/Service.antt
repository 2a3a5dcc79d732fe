-- ===== src/Execution/Service.antt =====
-- `reconcile_payment_status`, and `execute_payment` with its test for an earlier result
-- (apps/api/domain/execution_engine.py), in memory.
use mandate_gateway.Base.{String, true, false, Option, none, some, if◌then◌else◌, Result, ok, err}
use mandate_gateway.Dict.{lookup, insert}
use mandate_gateway.Clock.{Time}
use mandate_gateway.Types.{RejectionReason, PaymentResultState, TransactionState, is_terminal_state}
use mandate_gateway.Transaction.{Transaction, no_updates}
use mandate_gateway.Execution.{
  ExecutionFailureCategory, ExecutionError, ExecutionResult, PaymentExecuteProposalRequest,
  AuthorizationResult, PaymentExecutionService,
}
use mandate_gateway.Execution.Payment.{
  Outcome, is_unknown, text_or, with_order, settle, execute_new,
}

-- the result of a reconciliation; a success has no failure code and no category
unfoldable pub reconciled :
    String
    → TransactionState
    → String
    → Option RejectionReason
    → Option ExecutionFailureCategory
    → PaymentResultState
    → Time
    → ExecutionResult
reconciled tid state ref code category status now = record {
  success = elim status [ PaymentResultState.success ↦ true | _ ↦ false ];
  transaction_id = tid;
  state = state;
  external_reference = some ref;
  failure_code = code;
  failure_category = category;
  idempotent_replay = false;
  provider_status = some status;
  executed_at = now;
}

-- store the settled transaction and the result, or raise
unfoldable pub resolve_as :
    String → Result ExecutionError Transaction → ExecutionResult → PaymentExecutionService → Outcome
resolve_as tid (err x) res s = (err x, s)
resolve_as tid (ok t) res s = (
  ok res,
  record s { transactions = insert tid t s.transactions; results = insert tid res s.results },
)

abbrev pub remains : String → String → Time → PaymentExecutionService → Outcome
remains tid ref now s = (ok res, record s { results = insert tid res s.results })
  where
    res : ExecutionResult
    res =
        reconciled tid TransactionState.executing ref (some RejectionReason.authorization_expired)
          (some ExecutionFailureCategory.timeout) PaymentResultState.unknown now

-- the three branches on the status that the adapter fetched
unfoldable pub resolve :
    String
    → Transaction
    → String
    → Option PaymentResultState
    → Time
    → PaymentExecutionService
    → Outcome
unfolding resolve_as reconciled
resolve tid t ref status now s = elim status [
  | none ↦ remains tid ref now s
  | some st ↦ elim st [
    | PaymentResultState.success ↦
        resolve_as tid
          (settle t TransactionState.success (with_order (some ref)) TransactionState.committed now)
          (reconciled tid TransactionState.committed ref none none PaymentResultState.success now) s
    | PaymentResultState.failed ↦ roll_back
    | PaymentResultState.expired ↦ roll_back
    | PaymentResultState.pending ↦ remains tid ref now s
    | PaymentResultState.unknown ↦ remains tid ref now s
  ]
]
  where
    roll_back : Outcome
    roll_back =
        resolve_as tid
          (settle t TransactionState.failure no_updates TransactionState.rolled_back now)
          (reconciled tid TransactionState.rolled_back ref
            (some RejectionReason.method_not_authorized)
            (some ExecutionFailureCategory.provider_rejected) PaymentResultState.failed now)
          s

-- The status is fetched, under the reference given, the order's, or the transaction's identifier.
unfoldable pub fetch_and_resolve :
    String
    → Transaction
    → Option String
    → Option ExecutionResult
    → Time
    → PaymentExecutionService
    → Outcome
unfolding resolve
fetch_and_resolve tid t ref fetched now s = elim fetched [
  | none ↦ (err ExecutionError.provider_raised, s)
  | some f ↦
      resolve tid t (text_or ref (text_or t.razorpay_order_id t.transaction_id)) f.provider_status
        now s
]

-- `fetched` is what the adapter's `fetch_payment_status` answers, `none` for an exception.
unfoldable pub reconcile_payment_status :
    String → Option String → Option ExecutionResult → Time → PaymentExecutionService → Outcome
unfolding fetch_and_resolve
reconcile_payment_status tid ref fetched now s = elim (lookup tid s.transactions) [
  | none ↦ (ok missing, s)
  | some t ↦
      if is_terminal_state t.state
      then elim (lookup tid s.results) [
        | some cached ↦ (ok cached, s)
        | none ↦ fetch_and_resolve tid t ref fetched now s
      ]
      else fetch_and_resolve tid t ref fetched now s
]
  where
    missing : ExecutionResult
    missing = record {
      success = false;
      transaction_id = tid;
      state = TransactionState.rejected;
      external_reference = none;
      failure_code = some RejectionReason.invalid_transaction_state;
      failure_category = some ExecutionFailureCategory.invalid_context;
      idempotent_replay = false;
      provider_status = none;
      executed_at = now;
    }

-- `answer` is what the adapter's `execute_payment` answers, and `fetched` what its
-- `fetch_payment_status` does, if they are asked.
unfoldable pub execute_payment :
    PaymentExecuteProposalRequest
    → AuthorizationResult
    → Transaction
    → Option ExecutionResult
    → Option ExecutionResult
    → Time
    → PaymentExecutionService
    → Outcome
unfolding reconcile_payment_status execute_new
execute_payment p auth t answer fetched now s = elim (lookup t.transaction_id s.results) [
  | some res ↦
      if is_unknown res.provider_status
      then reconcile_payment_status t.transaction_id none fetched now s
      else (ok (record res { idempotent_replay = true }), s)
  | none ↦ execute_new p auth t answer now s
]
