-- ===== src/Execution/Dispatch.antt =====
-- What one call gives to the payment adapter, and with which authorization (execution_engine.py).
use mandate_gateway.Base.{
  String, ◌≡◌, refl, ◌⊎◌, inl, inr, Bool, true, false, Option, none, some, is_some, [], ◌∷◌, arith,
  eq_iff, Option-cases, Bool-cases, Result-cases, Result, ok, err,
}
use mandate_gateway.Text.{strip, lower, is_empty}
use mandate_gateway.Dict.{Dict, lookup, insert, lookup-insert}
use mandate_gateway.Clock.{Time}
use mandate_gateway.Types.{
  PolicyDecision, PaymentResultState, TransactionState, is_blocked_by_default, same_currency,
  can_execute,
}
use mandate_gateway.Transaction.{
  Transaction, no_updates, is_executable, transition_transaction, updated,
}
use mandate_gateway.Execution.{
  ExecutionError, ExecutionResult, PaymentExecuteProposalRequest, AuthorizationResult,
  PaymentExecutionService, register_transaction, reject_execution, verify_pre_execution_auth,
  verify_context_and_operation, cart_hash_differs, all_satisfied, required_controls, controls,
  denied,
}
use mandate_gateway.Execution.Payment.{
  settled_transaction, record_outcome, dispatch, trusted_request, rejecting, claim, execute_new,
}
use mandate_gateway.Execution.Service.{
  resolve_as, resolve, fetch_and_resolve, reconcile_payment_status,
}

-- a result is stored for the transaction
abbrev pub has_result : String → PaymentExecutionService → Bool
has_result tid s = is_some (lookup tid s.results)

pub insert-is_some :
    {V : Type 0} (k : String) (v : V) (n : String) (d : Dict V)
    → is_some (lookup n d) ≡ true
    → is_some (lookup n (insert k v d)) ≡ true
insert-is_some k v n d h = ground (arith, lookup-insert k n v d)

module _ (n tid : String) (t : Transaction) (ref : String) (now : Time)
    (s : PaymentExecutionService) where
  -- A reconciliation dispatches nothing and drops no result.
  resolve_as_keeps :
      (r : Result ExecutionError Transaction) (res : ExecutionResult)
      → ((resolve_as tid r res s).1.dispatched ≡ s.dispatched)
        × (has_result n s ≡ true → has_result n (resolve_as tid r res s).1 ≡ true)
  unfolding resolve_as
  resolve_as_keeps (ok t') res = (refl, λ h. insert-is_some tid res n s.results h)
  resolve_as_keeps (err x) res = (refl, λ h. h)

  resolve_keeps :
      (status : Option PaymentResultState)
      → ((resolve tid t ref status now s).1.dispatched ≡ s.dispatched)
        × (has_result n s ≡ true → has_result n (resolve tid t ref status now s).1 ≡ true)
  unfolding resolve
  resolve_keeps none = (refl, λ h. insert-is_some tid _ n s.results h)
  resolve_keeps (some PaymentResultState.success) = resolve_as_keeps _ _
  resolve_keeps (some PaymentResultState.failed) = resolve_as_keeps _ _
  resolve_keeps (some PaymentResultState.expired) = resolve_as_keeps _ _
  resolve_keeps (some PaymentResultState.pending) = (refl, λ h. insert-is_some tid _ n s.results h)
  resolve_keeps (some PaymentResultState.unknown) = (refl, λ h. insert-is_some tid _ n s.results h)

fetch_keeps :
    (n tid : String) (t : Transaction) (ref : Option String) (fetched : Option ExecutionResult)
    (now : Time) (s : PaymentExecutionService)
    → ((fetch_and_resolve tid t ref fetched now s).1.dispatched ≡ s.dispatched)
      × (has_result n s ≡ true → has_result n (fetch_and_resolve tid t ref fetched now s).1 ≡ true)
unfolding fetch_and_resolve
fetch_keeps n tid t ref none now s = (refl, λ h. h)
fetch_keeps n tid t ref (some f) now s = resolve_keeps n tid t _ now s f.provider_status

pub reconcile_keeps :
    (n tid : String) (ref : Option String) (fetched : Option ExecutionResult) (now : Time)
    (s : PaymentExecutionService)
    → ((reconcile_payment_status tid ref fetched now s).1.dispatched ≡ s.dispatched)
      × (has_result n s ≡ true
          → has_result n (reconcile_payment_status tid ref fetched now s).1 ≡ true)
unfolding reconcile_payment_status
reconcile_keeps n tid ref fetched now s = elim (Option-cases (lookup tid s.transactions)) [
  | inl missing ↦ (ground arith, λ h. ground arith)
  | inr (t, found) ↦
      let keeps = fetch_keeps n tid t ref fetched now s in
      elim (Option-cases (lookup tid s.results)) [
        | inl fresh ↦ (ground (arith, keeps.0), λ h. ground (arith, keeps.1 h))
        | inr (cached, known) ↦ (ground (arith, keeps.0), λ h. ground (arith, keeps.1 h))
      ]
]

-- What must hold for the call to dispatch a request: it is the first call for the transaction, which
-- is AUTHORIZED; the authorization allows, the six required controls allow and step-up does not
-- deny; and the proposal names the transaction's parties, amount and currency, the cart hash of the
-- transaction if it has one, up to spaces around it and letter case, and an operation that is not
-- blocked.
pub record MayDispatch (p : PaymentExecuteProposalRequest) (auth : AuthorizationResult)
    (t : Transaction) (s : PaymentExecutionService) : Type 0 where
  pub first : lookup t.transaction_id s.results ≡ none
  pub state : t.state ≡ TransactionState.authorized
  pub decision : auth.decision ≡ PolicyDecision.allow
  pub required : all_satisfied required_controls (controls auth.control_outcomes []) ≡ true
  pub step_up : denied "STEP_UP_AUTHORIZATION" (controls auth.control_outcomes []) ≡ false
  pub transaction_id : p.transaction_id ≡ t.transaction_id
  pub merchant : p.merchant_id ≡ t.merchant_id
  pub buyer : p.buyer_id ≡ t.buyer_id
  pub mandate : p.mandate_id ≡ t.mandate_id
  pub amount : p.amount_paise ≡ t.amount_paise
  pub currency : p.currency ≡ t.currency
  pub cart :
      (h : String)
      → t.cart_hash ≡ some h
      → is_empty h ≡ false
      → lower (strip p.cart_hash) ≡ lower (strip h)
  pub operation : is_blocked_by_default p.operation ≡ false

-- the call dispatched nothing, or just this request
abbrev pub Dispatches :
    PaymentExecuteProposalRequest
    → AuthorizationResult
    → Transaction
    → PaymentExecutionService
    → PaymentExecutionService
    → Type 0
Dispatches p auth t s s' =
    (s'.dispatched ≡ s.dispatched)
    ⊎ ((s'.dispatched ≡ trusted_request p t ∷ s.dispatched) × MayDispatch p auth t s)

auth_passes :
    (auth : AuthorizationResult)
    → verify_pre_execution_auth auth ≡ none
    → (auth.decision ≡ PolicyDecision.allow)
      × (all_satisfied required_controls (controls auth.control_outcomes []) ≡ true)
      × (denied "STEP_UP_AUTHORIZATION" (controls auth.control_outcomes []) ≡ false)
unfolding verify_pre_execution_auth
auth_passes auth h = (ground arith, ground arith, ground arith)

record_outcome_dispatched :
    (p : PaymentExecuteProposalRequest) (t ex : Transaction) (a : ExecutionResult) (now : Time)
    (s : PaymentExecutionService)
    → (record_outcome p t ex a now s).1.dispatched ≡ s.dispatched
unfolding record_outcome
record_outcome_dispatched p t ex a now s = elim (Result-cases (settled_transaction ex a now)) [
  | inl (done, e) ↦ ground arith
  | inr (x, e) ↦ ground arith
]

dispatch_dispatched :
    (p : PaymentExecuteProposalRequest) (t ex : Transaction) (answer : Option ExecutionResult)
    (now : Time) (s : PaymentExecutionService)
    → (dispatch p t ex answer now s).1.dispatched ≡ trusted_request p ex ∷ s.dispatched
unfolding dispatch
dispatch_dispatched p t ex none now s = refl
dispatch_dispatched p t ex (some a) now s = record_outcome_dispatched p t ex a now _

pub claimed :
    (t ex : Transaction) (now : Time)
    → transition_transaction t TransactionState.executing no_updates now ≡ ok ex
    → (updated t TransactionState.executing no_updates now ≡ ex)
unfolding transition_transaction
claimed t ex now h = ground arith

claim_dispatched :
    (p : PaymentExecuteProposalRequest) (t : Transaction) (answer : Option ExecutionResult)
    (now : Time) (s : PaymentExecutionService)
    → ((claim p t answer now s).1.dispatched ≡ s.dispatched)
      ⊎ (((claim p t answer now s).1.dispatched ≡ trusted_request p t ∷ s.dispatched)
          × (is_executable t ≡ true))
unfolding claim rejecting reject_execution
claim_dispatched p t answer now s = elim (Bool-cases (is_executable t)) [
  | inr other ↦ inl (ground arith)
  | inl executable ↦
      elim (Result-cases (transition_transaction t TransactionState.executing no_updates now)) [
        | inr (x, e) ↦ inl (ground arith)
        | inl (ex, e) ↦
            let sent = dispatch_dispatched p t ex answer now s in
            let same : trusted_request p ex ≡ trusted_request p t =
              rw (← claimed t ex now e) (unfold updated trusted_request in refl) in
            inr (ground arith, executable)
      ]
]

module _ (p : PaymentExecuteProposalRequest) (t : Transaction) where
  context_passes :
      verify_context_and_operation p t ≡ none
      → (p.transaction_id ≡ t.transaction_id)
        × (p.merchant_id ≡ t.merchant_id)
        × (p.buyer_id ≡ t.buyer_id)
        × (p.mandate_id ≡ t.mandate_id)
        × (p.amount_paise ≡ t.amount_paise)
        × (p.currency ≡ t.currency)
        × ((h : String)
            → t.cart_hash ≡ some h
            → is_empty h ≡ false
            → lower (strip p.cart_hash) ≡ lower (strip h))
        × (is_blocked_by_default p.operation ≡ false)
  unfolding verify_context_and_operation same_currency cart_hash_differs
  context_passes h =
      let tx = eq_iff p.transaction_id t.transaction_id in
      let merchant = eq_iff p.merchant_id t.merchant_id in
      let buyer = eq_iff p.buyer_id t.buyer_id in
      let mandate = eq_iff p.mandate_id t.mandate_id in
      (
        ground (arith, tx),
        ground (arith, merchant),
        ground (arith, buyer),
        ground (arith, mandate),
        ground arith,
        ground arith,
        λ hash given filled.
            ground (arith, eq_iff (lower (strip p.cart_hash)) (lower (strip hash))),
        ground arith,
      )

  module _ (auth : AuthorizationResult) (answer fetched : Option ExecutionResult) (now : Time)
      (s : PaymentExecutionService) where
    pub execute_new-Dispatches :
        lookup t.transaction_id s.results ≡ none
        → Dispatches p auth t s (execute_new p auth t answer now s).1
    unfolding execute_new rejecting reject_execution register_transaction is_executable
    execute_new-Dispatches first = elim (Option-cases (verify_pre_execution_auth auth)) [
      | inr (why, e) ↦ inl (ground arith)
      | inl a ↦ elim (Option-cases (verify_context_and_operation p t)) [
        | inr (why, e) ↦ inl (ground arith)
        | inl c ↦ elim (claim_dispatched p t answer now (register_transaction t s)) [
          | inl same ↦ inl (ground arith)
          | inr (sent, executable) ↦
              let (decision, required, step_up) = auth_passes auth a in
              let (tx, merchant, buyer, mandate, amount, currency, cart, operation) =
                context_passes c in
              inr (
                ground arith,
                record {
                  first = first;
                  state = unfold can_execute in ground arith;
                  decision = decision;
                  required = required;
                  step_up = step_up;
                  transaction_id = tx;
                  merchant = merchant;
                  buyer = buyer;
                  mandate = mandate;
                  amount = amount;
                  currency = currency;
                  cart = cart;
                  operation = operation;
                },
              )
        ]
      ]
    ]
