-- ===== src/Execution/Once.antt =====
-- How often a transaction is given to the payment adapter (execution_engine.py) by any calls.
use mandate_gateway.Base.{
  ℕ, suc, ◌≤◌, String, ◌≡◌, refl, ◌⊎◌, inl, inr, true, Option, none, some, List, [], ◌∷◌, arith,
  str_eq, eq_iff, Option-cases, Bool-cases, Result-cases, if◌then◌else◌, ok,
}
use mandate_gateway.Dict.{lookup, insert, lookup-insert}
use mandate_gateway.Clock.{Time}
use mandate_gateway.Types.{TransactionState, can_transition_to}
use mandate_gateway.Transaction.{
  Transaction, no_updates, is_executable, transition_transaction, updated,
}
use mandate_gateway.Execution.{
  TrustedExecutionRequest, ExecutionResult, PaymentExecuteProposalRequest, AuthorizationResult,
  PaymentExecutionService, register_transaction, reject_execution, verify_pre_execution_auth,
  verify_context_and_operation,
}
use mandate_gateway.Execution.Payment.{
  is_unknown, settle, settled_transaction, final_result, record_outcome, dispatch, trusted_request,
  rejecting, claim, execute_new,
}
use mandate_gateway.Execution.Service.{reconcile_payment_status, execute_payment}
use mandate_gateway.Execution.Dispatch.{
  has_result, insert-is_some, reconcile_keeps, claimed, execute_new-Dispatches, Dispatches,
}

-- Calls on the service. The adapter answers every payment; a fetch may raise.
pub data Call : Type 0 where
  registers : Transaction → Call
  executes :
      PaymentExecuteProposalRequest
      → AuthorizationResult
      → Transaction
      → ExecutionResult
      → Option ExecutionResult
      → Time
      → Call
  reconciles : String → Option String → Option ExecutionResult → Time → Call

unfoldable pub step : PaymentExecutionService → Call → PaymentExecutionService
step s (registers t) = register_transaction t s
step s (executes p auth t answer fetched now) =
    (execute_payment p auth t (some answer) fetched now s).1
step s (reconciles tid ref fetched now) = (reconcile_payment_status tid ref fetched now s).1

unfoldable pub run : PaymentExecutionService → List Call → PaymentExecutionService
run s [] = s
run s (call ∷ calls) = run (step s call) calls

-- `PaymentExecutionService.__init__`
abbrev pub new_service : PaymentExecutionService
new_service = record { transactions = []; results = []; audit_events = []; dispatched = [] }

-- how many of the requests are for transaction `n`
unfoldable pub requests_for : String → List TrustedExecutionRequest → ℕ
requests_for n [] = 0
requests_for n (r ∷ rs) =
    let rest = requests_for n rs in if str_eq r.transaction_id n then suc rest else rest

-- An answer always settles a transaction that is EXECUTING.
settled_ok :
    (ex : Transaction) (a : ExecutionResult) (now : Time)
    → ex.state ≡ TransactionState.executing
    → (done : Transaction) × (settled_transaction ex a now ≡ ok done)
unfolding settled_transaction settle transition_transaction can_transition_to updated
settled_ok ex a now h = elim (Result-cases (settled_transaction ex a now)) [
  | inl good ↦ good
  | inr (x, bad) ↦ absurd (ground arith)
]

claimed_executing :
    (t ex : Transaction) (now : Time)
    → transition_transaction t TransactionState.executing no_updates now ≡ ok ex
    → ex.state ≡ TransactionState.executing
unfolding transition_transaction updated
claimed_executing t ex now h = ground (arith, claimed t ex now h)

-- the results of the call: one more, for the transaction of the call
abbrev Records : String → PaymentExecutionService → PaymentExecutionService → Type 0
Records tid s s' = (res : ExecutionResult) × (s'.results ≡ insert tid res s.results)

record_outcome-Records :
    (p : PaymentExecuteProposalRequest) (t ex : Transaction) (a : ExecutionResult) (now : Time)
    (s : PaymentExecutionService)
    → ex.state ≡ TransactionState.executing
    → Records t.transaction_id s (record_outcome p t ex a now s).1
unfolding record_outcome
record_outcome-Records p t ex a now s h =
    let (done, e) = settled_ok ex a now h in (final_result ex a, ground arith)

rejecting-Records :
    (t : Transaction) (why : _) (now : Time) (s : PaymentExecutionService)
    → Records t.transaction_id s (rejecting t why now s).1
unfolding rejecting reject_execution
rejecting-Records t why now s = (_, refl)

claim-Records :
    (p : PaymentExecuteProposalRequest) (t : Transaction) (a : ExecutionResult) (now : Time)
    (s : PaymentExecutionService)
    → Records t.transaction_id s (claim p t (some a) now s).1
unfolding claim dispatch
claim-Records p t a now s = elim (Bool-cases (is_executable t)) [
  | inr other ↦ rw (other, claim) (rejecting-Records t _ now s)
  | inl executable ↦
      elim (Result-cases (transition_transaction t TransactionState.executing no_updates now)) [
        | inr (x, e) ↦ rw (executable, e, claim) (rejecting-Records t _ now s)
        | inl (ex, e) ↦
            rw (executable, e, claim)
              (record_outcome-Records p t ex a now _ (claimed_executing t ex now e))
      ]
]

execute_new-Records :
    (p : PaymentExecuteProposalRequest) (auth : AuthorizationResult) (t : Transaction)
    (a : ExecutionResult) (now : Time) (s : PaymentExecutionService)
    → Records t.transaction_id s (execute_new p auth t (some a) now s).1
unfolding execute_new register_transaction
execute_new-Records p auth t a now s =
    let s' = register_transaction t s in
    elim (Option-cases (verify_pre_execution_auth auth)) [
      | inr (why, e) ↦ rw (e, execute_new) (rejecting-Records t why now s')
      | inl passes ↦ elim (Option-cases (verify_context_and_operation p t)) [
        | inr (why, e) ↦ rw (passes, e, execute_new) (rejecting-Records t why now s')
        | inl fits ↦ rw (passes, fits, execute_new) (claim-Records p t a now s')
      ]
    ]

-- At most one request for `n`, and none while `n` has no result.
abbrev Once : String → PaymentExecutionService → Type 0
Once n s = requests_for n s.dispatched ≤ (if has_result n s then 1 else 0)

-- a step that dispatches nothing and drops no result
quiet_keeps :
    (n : String) (s s' : PaymentExecutionService)
    → s'.dispatched ≡ s.dispatched
    → (has_result n s ≡ true → has_result n s' ≡ true)
    → Once n s
    → Once n s'
quiet_keeps n s s' same keeps h = elim (Bool-cases (has_result n s)) [
  | inl known ↦ let known' = keeps known in rw same (ground (arith, h))
  | inr fresh ↦ rw same (ground (arith, h))
]

new_keeps :
    (n tid : String) (s s' : PaymentExecutionService)
    → lookup tid s.results ≡ none
    → Records tid s s'
    → (s'.dispatched ≡ s.dispatched)
      ⊎ ((r : TrustedExecutionRequest) × (s'.dispatched ≡ r ∷ s.dispatched)
          × (r.transaction_id ≡ tid))
    → Once n s
    → Once n s'
unfolding requests_for
new_keeps n tid s s' first (res, more) (inl same) h =
    quiet_keeps n s s' same (λ known. rw more (insert-is_some tid res n s.results known)) h
new_keeps n tid s s' first (res, more) (inr (r, sent, for_tid)) h =
    let stored = lookup-insert tid n res s.results in
    rw (sent, more)
      (ground (arith, eq_iff n tid, eq_iff r.transaction_id n, h, first, stored, for_tid))

one_request :
    (p : PaymentExecuteProposalRequest) (auth : AuthorizationResult) (t : Transaction)
    (s s' : PaymentExecutionService)
    → Dispatches p auth t s s'
    → (s'.dispatched ≡ s.dispatched)
      ⊎ ((r : TrustedExecutionRequest) × (s'.dispatched ≡ r ∷ s.dispatched)
          × (r.transaction_id ≡ t.transaction_id))
unfolding trusted_request
one_request p auth t s s' (inl same) = inl same
one_request p auth t s s' (inr (sent, may)) = inr (trusted_request p t, sent, refl)

execute_keeps :
    (n : String) (p : PaymentExecuteProposalRequest) (auth : AuthorizationResult) (t : Transaction)
    (answer : ExecutionResult) (fetched : Option ExecutionResult) (now : Time)
    (s : PaymentExecutionService)
    → Once n s
    → Once n (execute_payment p auth t (some answer) fetched now s).1
unfolding execute_payment
execute_keeps n p auth t answer fetched now s h =
    elim (Option-cases (lookup t.transaction_id s.results)) [
      | inl first ↦
          rw (first, execute_payment)
            (new_keeps n t.transaction_id s (execute_new p auth t (some answer) now s).1 first
              (execute_new-Records p auth t answer now s)
              (one_request p auth t s (execute_new p auth t (some answer) now s).1
                (execute_new-Dispatches p t auth (some answer) fetched now s first))
              h)
      | inr (res, known) ↦ elim (Bool-cases (is_unknown res.provider_status)) [
        | inl unknown ↦
            let (same, keeps) = reconcile_keeps n t.transaction_id none fetched now s in
            rw (known, unknown, execute_payment)
              (quiet_keeps n s (reconcile_payment_status t.transaction_id none fetched now s).1 same
                keeps h)
        | inr settled ↦ rw (known, settled, execute_payment) h
      ]
    ]

step_keeps :
    (n : String) (s : PaymentExecutionService) (call : Call) → Once n s → Once n (step s call)
unfolding step register_transaction
step_keeps n s (registers t) h = h
step_keeps n s (reconciles tid ref fetched now) h =
    let (same, keeps) = reconcile_keeps n tid ref fetched now s in
    quiet_keeps n s (reconcile_payment_status tid ref fetched now s).1 same keeps h
step_keeps n s (executes p auth t answer fetched now) h =
    execute_keeps n p auth t answer fetched now s h

run_keeps :
    (n : String) (s : PaymentExecutionService) (calls : List Call) → Once n s → Once n (run s calls)
unfolding run
run_keeps n s [] h = h
run_keeps n s (call ∷ calls) h = run_keeps n (step s call) calls (step_keeps n s call h)

-- Whatever calls are made on a new service, with the adapter answering every payment, it is given at
-- most one request for each transaction: no retry, no reconciliation and no unknown outcome pays
-- twice.
pub dispatched_at_most_once :
    (n : String) (calls : List Call) → requests_for n (run new_service calls).dispatched ≤ 1
dispatched_at_most_once n calls =
    let once : Once n (run new_service calls) =
      run_keeps n new_service calls (unfold requests_for in ground arith) in
    ground (arith, once)
