-- ===== src/Types.antt =====
-- apps/api/domain/types.py: the enumerations of the gateway, and the legal transitions of a
-- transaction. A member's string value is not modelled: members are only compared.
use mandate_gateway.Base.{ℕ, Bool, true, false, ◌||◌, List, [], ◌∷◌, ◌==◌}

pub data Currency : Type 0 where
  inr usd : Currency

unfoldable pub same_currency : Currency → Currency → Bool
same_currency Currency.inr Currency.inr = true
same_currency Currency.usd Currency.usd = true
same_currency _ _ = false

pub data Region : Type 0 where
  india united_states : Region

unfoldable pub same_region : Region → Region → Bool
same_region Region.india Region.india = true
same_region Region.united_states Region.united_states = true
same_region _ _ = false

pub data MandateStatus : Type 0 where
  draft active suspended revoked expired : MandateStatus

-- `MandateStatus.is_terminal`
unfoldable pub is_terminal_status : MandateStatus → Bool
is_terminal_status MandateStatus.revoked = true
is_terminal_status MandateStatus.expired = true
is_terminal_status _ = false

pub data TransactionState : Type 0 where
  draft proposed validating rejected step_up_required user_approved : TransactionState
  reserved authorized executing success failure committed rolled_back : TransactionState
  completed receipt expired consumed : TransactionState

-- a number for each member, by which members are compared
abbrev pub state_tag : TransactionState → ℕ
state_tag TransactionState.draft = 0
state_tag TransactionState.proposed = 1
state_tag TransactionState.validating = 2
state_tag TransactionState.rejected = 3
state_tag TransactionState.step_up_required = 4
state_tag TransactionState.user_approved = 5
state_tag TransactionState.reserved = 6
state_tag TransactionState.authorized = 7
state_tag TransactionState.executing = 8
state_tag TransactionState.success = 9
state_tag TransactionState.failure = 10
state_tag TransactionState.committed = 11
state_tag TransactionState.rolled_back = 12
state_tag TransactionState.completed = 13
state_tag TransactionState.receipt = 14
state_tag TransactionState.expired = 15
state_tag TransactionState.consumed = 16

-- `target in states`
abbrev pub state_in : TransactionState → List TransactionState → Bool
state_in t [] = false
state_in t (s ∷ ss) = state_tag t == state_tag s || state_in t ss

-- `_TRANSACTION_LEGAL_TRANSITIONS`, and `legal_next_states`, which reads it
unfoldable pub legal_next_states : TransactionState → List TransactionState
legal_next_states TransactionState.draft = TransactionState.proposed ∷ []
legal_next_states TransactionState.proposed = TransactionState.validating ∷ []
legal_next_states TransactionState.validating =
    TransactionState.rejected ∷ TransactionState.step_up_required ∷ TransactionState.reserved ∷ []
legal_next_states TransactionState.step_up_required = TransactionState.user_approved ∷ []
legal_next_states TransactionState.user_approved = TransactionState.reserved ∷ []
legal_next_states TransactionState.reserved = TransactionState.authorized ∷ []
legal_next_states TransactionState.authorized = TransactionState.executing ∷ []
legal_next_states TransactionState.executing =
    TransactionState.success ∷ TransactionState.failure ∷ TransactionState.committed
    ∷ TransactionState.rolled_back ∷ []
legal_next_states TransactionState.success = TransactionState.committed ∷ []
legal_next_states TransactionState.failure = TransactionState.rolled_back ∷ []
legal_next_states TransactionState.committed = TransactionState.completed ∷ []
legal_next_states TransactionState.rolled_back = TransactionState.completed ∷ []
legal_next_states TransactionState.completed = TransactionState.receipt ∷ []
legal_next_states TransactionState.rejected = []
legal_next_states TransactionState.receipt = []
legal_next_states TransactionState.expired = []
legal_next_states TransactionState.consumed = []

unfoldable pub can_transition_to : TransactionState → TransactionState → Bool
unfolding legal_next_states
can_transition_to s target = state_in target (legal_next_states s)

-- `TransactionState.is_terminal`
unfoldable pub is_terminal_state : TransactionState → Bool
is_terminal_state s = state_in s (
    TransactionState.rejected ∷ TransactionState.completed ∷ TransactionState.expired
    ∷ TransactionState.receipt ∷ [])

-- `TransactionState.can_execute`
unfoldable pub can_execute : TransactionState → Bool
can_execute TransactionState.authorized = true
can_execute _ = false

pub data PolicyDecision : Type 0 where
  allow step_up_required reject : PolicyDecision

abbrev pub is_allow : PolicyDecision → Bool
is_allow PolicyDecision.allow = true
is_allow _ = false

abbrev pub is_reject : PolicyDecision → Bool
is_reject PolicyDecision.reject = true
is_reject _ = false

abbrev pub is_step_up : PolicyDecision → Bool
is_step_up PolicyDecision.step_up_required = true
is_step_up _ = false

unfoldable pub same_decision : PolicyDecision → PolicyDecision → Bool
same_decision PolicyDecision.allow PolicyDecision.allow = true
same_decision PolicyDecision.step_up_required PolicyDecision.step_up_required = true
same_decision PolicyDecision.reject PolicyDecision.reject = true
same_decision _ _ = false

pub data StepUpZone : Type 0 where
  auto_execute step_up_required hard_reject : StepUpZone

pub data BudgetState : Type 0 where
  available reserved committed spent expired released : BudgetState

pub data NonceState : Type 0 where
  issued consumed : NonceState

pub data McpOperation : Type 0 where
  create_order create_payment_link fetch_payment payout settlement bank_transfer : McpOperation

-- the property `is_blocked_by_default`
unfoldable pub is_blocked_by_default : McpOperation → Bool
is_blocked_by_default McpOperation.payout = true
is_blocked_by_default McpOperation.settlement = true
is_blocked_by_default McpOperation.bank_transfer = true
is_blocked_by_default _ = false

pub data PaymentResultState : Type 0 where
  pending success failed expired unknown : PaymentResultState

pub data AuditEventType : Type 0 where
  mandate_created merchant_policy_created cart_proposed policy_evaluated : AuditEventType
  step_up_requested step_up_approved reservation_created tool_blocked : AuditEventType
  execution_authorized payment_started payment_success payment_failed : AuditEventType
  reservation_released nonce_replay_blocked cart_tamper_blocked : AuditEventType
  api_credential_created api_credential_authenticated : AuditEventType
  api_credential_auth_failed api_credential_revoked authorization_denied : AuditEventType
  tenant_access_denied scope_denied : AuditEventType

-- a number for each member, by which members are compared
abbrev pub event_type_tag : AuditEventType → ℕ
event_type_tag AuditEventType.mandate_created = 0
event_type_tag AuditEventType.merchant_policy_created = 1
event_type_tag AuditEventType.cart_proposed = 2
event_type_tag AuditEventType.policy_evaluated = 3
event_type_tag AuditEventType.step_up_requested = 4
event_type_tag AuditEventType.step_up_approved = 5
event_type_tag AuditEventType.reservation_created = 6
event_type_tag AuditEventType.tool_blocked = 7
event_type_tag AuditEventType.execution_authorized = 8
event_type_tag AuditEventType.payment_started = 9
event_type_tag AuditEventType.payment_success = 10
event_type_tag AuditEventType.payment_failed = 11
event_type_tag AuditEventType.reservation_released = 12
event_type_tag AuditEventType.nonce_replay_blocked = 13
event_type_tag AuditEventType.cart_tamper_blocked = 14
event_type_tag AuditEventType.api_credential_created = 15
event_type_tag AuditEventType.api_credential_authenticated = 16
event_type_tag AuditEventType.api_credential_auth_failed = 17
event_type_tag AuditEventType.api_credential_revoked = 18
event_type_tag AuditEventType.authorization_denied = 19
event_type_tag AuditEventType.tenant_access_denied = 20
event_type_tag AuditEventType.scope_denied = 21

pub data RejectionReason : Type 0 where
  mandate_expired mandate_revoked mandate_not_active mandate_not_in_scope : RejectionReason
  merchant_not_in_scope category_not_in_scope amount_exceeds_mandate : RejectionReason
  currency_mismatch autonomous_execution_disabled mandate_ttl_expired : RejectionReason
  ai_commerce_disabled merchant_category_not_allowed : RejectionReason
  merchant_amount_limit_exceeded operation_not_allowed region_not_allowed : RejectionReason
  merchant_currency_not_supported policy_version_invalid : RejectionReason
  merchant_policy_expired merchant_mismatch : RejectionReason
  cart_integrity_violation cart_total_mismatch cart_currency_mismatch : RejectionReason
  product_unavailable nonce_already_consumed authorization_expired : RejectionReason
  nonce_invalid invalid_transaction_state tool_outside_mandate : RejectionReason
  method_not_authorized control_result_missing replay_attempt_detected : RejectionReason
  budget_insufficient daily_limit_exceeded budget_exceeded : RejectionReason
  budget_currency_mismatch invalid_amount exceeds_step_up_hard_limit : RejectionReason
  step_up_confirmation_invalid step_up_confirmation_expired : RejectionReason
