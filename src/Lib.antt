-- ===== src/Lib.antt =====
-- Verification of the domain core of Mandate Gateway, a gateway that lets a buyer's software agent
-- pay only within what the buyer's mandate, the merchant and a chain of security controls allow.
--
-- The program. A request comes with a mandate, an intent and a cart. Independent controls evaluate
-- it: the mandate's scope and lifecycle, the merchant's policy, the integrity of the cart, a daily
-- budget with reservations, protection against replays, a nonce for single use, and step-up, which
-- asks a human above the mandate's cap. An aggregator makes one decision of their outcomes, and a
-- transaction moves through a state machine to its execution.
--
-- The files, and the code they are about (under apps/api/domain/ where no other path is given):
--   Base, Int, Text, Dict, Clock, Ladder: shared notation. `Result` stands for a call that may
--     raise, `Action` for a method that changes its object, ℤ for Python's int, Dict for a dict,
--     Clock for a datetime in UTC, Ladder for a list of tests of which the first failure counts,
--     Iff for lemmas on equivalences.
--   Types: the enumerations and the transition diagram of types.py.
--   Budget: budget.py and the functions of budget_engine.py; Budget/Engine: the methods
--     `register_budget`, `reserve`, `commit` and `release`. Budget/Moves is an abstract ledger
--     for the methods, Budget/Accounting its invariants, Budget/Runs any sequence of calls,
--     Budget/Decision and Budget/Finality the methods one by one.
--   Nonce: nonce.py and nonce_engine.py (`issue_nonce`, `validate_and_consume`).
--   StepUp: step_up.py and step_up_engine.py (`classify_step_up_zone`, `create_challenge`,
--     `record_human_confirmation`, `evaluate_authorization_step_up`).
--   Replay: replay_engine.py (`compute_replay_fingerprint`, `check_and_record`, `is_replayed`).
--   Cart: cart.py (its constructor) and intent.py. Mandate: mandate.py; Mandate/Lifecycle and Mandate/Evaluator:
--     mandate_lifecycle.py (`transition_mandate`, `MandateEvaluator.evaluate`).
--   Aggregator: authorization_aggregator.py (`AuthorizationAggregator.aggregate`);
--     Aggregator/Outcomes: the methods `to_security_control_outcome` of the engines' results.
--     Aggregator/Objection is its order of precedence, in words of the outcomes.
--   Execution: execution.py, and the checks of `PaymentExecutionService` in execution_engine.py;
--     Execution/Payment and Execution/Service: its `execute_payment` and `reconcile_payment_status`.
--   Merchant: merchant.py; Merchant/Engine: merchant_policy_engine.py (`evaluate`).
--   Policy: policy_engine.py (`PolicyEngine.evaluate`), which asks the budget and the nonce too.
--   Integrity: cart_integrity.py (`compute_cart_hash`, `CartIntegrityVerifier.verify`).
--   Money: money.py. Audit: audit.py and audit_ledger.py (`append_event`, `verify_chain`,
--     `query_events`).
--   Receipt: receipt.py and receipt_signer.py (`sign_receipt`); Receipt/Verifier:
--     receipt_verifier.py (`verify`), which also asks the audit ledger.
--   Webhook: webhook_engine.py; Webhook/Engine: its `async_process_webhook`, the methods of
--     db/repository/ that it calls, and the route of apps/api/routers/webhooks.py before it.
--   Proxy: tool_proxy.py (`sanitize_untrusted_input`, `validate_url_safety`,
--     `invoke_execution_tool`), which hands what an agent's tool proposes to the execution service.
--   Recovery: reconciliation.py (`audit_budget_reservations`), which releases reservations of Budget.
--   Transaction: transaction.py and transaction_engine.py (`transition_transaction`).
--   The Tests of a component apply its theorems at concrete inputs.
--
-- Interaction. The aggregator takes the results of the mandate's evaluator and of the engines in
-- the form that Aggregator/Outcomes gives them; Aggregator/Purchase puts them together, with those
-- of the merchant's policy and of the cart's integrity. The verifier of receipts reads the ledger
-- of audit events. The proxy calls the execution service, and the audit of reservations the budget
-- engine. The other engines share no state. Each method runs under its engine's lock, so a
-- concurrent run is a sequence of calls, and the properties of the engines are about every such
-- sequence. The webhook engine works on the database alone, which the in-memory engines do not see.
--
-- Conventions. Amounts are unbounded integers, as in Python, and the code's own guards keep them in
-- their bounds. What the code reads from the clock or a random generator is an argument of the call
-- (`now`, `uuid`, `value`, `cid`). The SHA-256 digest of the replay fingerprint is a parameter, as
-- are those of an audit event, a receipt and a cart, with no hypothesis about collisions but where
-- a theorem names one. Ed25519 and base64 are the parameters `Crypto`, and what a theorem relies on
-- is `IsSound`: a decoding gives back what was encoded, and a signature checks under the key of its
-- signer. The HMAC and the JSON parser of a webhook are parameters without a hypothesis. What
-- Python's `str` and `int` make of a value of another type is a parameter of the proxy. A delivery
-- of a webhook is one transaction of the database and so one step. What the payment adapter
-- answers, or that it raises, is an argument of each call. `lower` lowers ASCII letters, which the
-- hexadecimal digests are made of; a category name beyond ASCII is outside the model. No definition
-- needs fuel: every loop of the code runs over a list.
--
-- Not modelled: message texts and details, float percentages for display, the async methods but the
-- webhook's and the database behind them, the imports and exports of signing keys, the reports of
-- reconciliation, recovery, the web layer but one route, the agent and the user interface. One lock
-- for each mandate is modelled as one step for each call: the test of `reserve` for a reservation
-- identifier that another mandate uses at the same moment is outside the model. Of a webhook's
-- database, a race of two sessions on one primary key is outside the model.
pub mod Base
pub mod Int
pub mod Text
pub mod Dict
pub mod Clock
pub mod Ladder
pub mod Types
pub mod Budget
pub mod Nonce
pub mod StepUp
pub mod Replay
pub mod Transaction
pub mod Cart
pub mod Mandate
pub mod Aggregator
pub mod Execution
pub mod Iff
pub mod Merchant
pub mod Money
pub mod Audit
pub mod Receipt
pub mod Recovery
pub mod Integrity
pub mod Policy
pub mod Proxy
pub mod Webhook
