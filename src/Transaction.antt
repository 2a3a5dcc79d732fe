-- ===== src/Transaction.antt =====
-- apps/api/domain/transaction.py and apps/api/domain/transaction_engine.py: the transaction record
-- and its state machine. Message texts are not modelled; `_utc_now()` is the argument `now`.
pub mod Paths
pub mod Consistency
mod Tests
use mandate_gateway.Base.{
  String, Bool, true, false, not, ◌&&◌, ◌||◌, Option, none, some, ltb, is_some, get_or,
  if◌then◌else◌, Result, ok, err,
}
use mandate_gateway.Int.{ℤ, pos, ltb_ℤ}
use mandate_gateway.Text.{is_empty}
use mandate_gateway.Clock.{Time}
use mandate_gateway.Types.{
  Currency, RejectionReason, TransactionState, can_transition_to, can_execute, is_terminal_state,
}

pub data TransactionError : Type 0 where
  illegal_transition missing_reason unexpected_reason validation : TransactionError

pub record Transaction : Type 0 where
  pub transaction_id : String
  pub buyer_id : String
  pub merchant_id : String
  pub mandate_id : String
  pub mandate_version : ℤ
  pub policy_version : ℤ
  pub cart_id : Option String
  pub cart_hash : Option String
  pub amount_paise : ℤ
  pub currency : Currency
  pub state : TransactionState
  pub rejection_reason : Option RejectionReason
  pub idempotency_key : String
  pub nonce : Option String
  pub created_at : Time
  pub updated_at : Time
  pub step_up_required_at : Option Time
  pub step_up_approved_at : Option Time
  pub step_up_amount_paise : Option ℤ
  pub razorpay_order_id : Option String
  pub razorpay_payment_id : Option String

abbrev pub is_rejected : TransactionState → Bool
is_rejected TransactionState.rejected = true
is_rejected _ = false

-- `_validate_rejection_consistency`: a reason is given for a rejection, and for nothing else.
unfoldable pub validate_rejection_consistency : Transaction → Result TransactionError Transaction
validate_rejection_consistency t =
    if is_rejected t.state && not (is_some t.rejection_reason)
    then err TransactionError.validation
    else if not (is_rejected t.state) && is_some t.rejection_reason
    then err TransactionError.validation
    else ok t

-- some field is outside the bounds of its declaration
unfoldable pub out_of_bounds : Transaction → Bool
out_of_bounds t =
    is_empty t.buyer_id
    || is_empty t.merchant_id
    || is_empty t.mandate_id
    || ltb_ℤ t.mandate_version (pos 1)
    || ltb_ℤ t.policy_version (pos 1)
    || ltb_ℤ t.amount_paise (pos 0)

-- The constructor: the field bounds, then the validator.
unfoldable pub transaction : Transaction → Result TransactionError Transaction
unfolding validate_rejection_consistency
transaction t =
    if out_of_bounds t then err TransactionError.validation else validate_rejection_consistency t

unfoldable pub is_executable : Transaction → Bool
unfolding can_execute
is_executable t = can_execute t.state

-- The keyword arguments of `transition_transaction`.
pub record Updates : Type 0 where
  pub rejection_reason : Option RejectionReason
  pub cart_id : Option String
  pub cart_hash : Option String
  pub amount_paise : Option ℤ
  pub nonce : Option String
  pub razorpay_order_id : Option String
  pub razorpay_payment_id : Option String
  pub step_up_amount_paise : Option ℤ

abbrev pub no_updates : Updates
no_updates = record {
  rejection_reason = none;
  cart_id = none;
  cart_hash = none;
  amount_paise = none;
  nonce = none;
  razorpay_order_id = none;
  razorpay_payment_id = none;
  step_up_amount_paise = none;
}

-- the new value of an optional field: the one given, if one is
abbrev pub given_or {ℓ} : {A : Type ℓ} → Option A → Option A → Option A
given_or none old = old
given_or (some a) old = some a

abbrev is_step_up_required : TransactionState → Bool
is_step_up_required TransactionState.step_up_required = true
is_step_up_required _ = false

abbrev is_user_approved : TransactionState → Bool
is_user_approved TransactionState.user_approved = true
is_user_approved _ = false

-- `transaction.model_copy(update=updates)`
unfoldable pub updated : Transaction → TransactionState → Updates → Time → Transaction
updated t new_state u now = record t {
  state = new_state;
  updated_at = now;
  rejection_reason = given_or u.rejection_reason t.rejection_reason;
  cart_id = given_or u.cart_id t.cart_id;
  cart_hash = given_or u.cart_hash t.cart_hash;
  amount_paise = get_or u.amount_paise t.amount_paise;
  nonce = given_or u.nonce t.nonce;
  razorpay_order_id = given_or u.razorpay_order_id t.razorpay_order_id;
  razorpay_payment_id = given_or u.razorpay_payment_id t.razorpay_payment_id;
  step_up_amount_paise = given_or u.step_up_amount_paise t.step_up_amount_paise;
  step_up_required_at = if is_step_up_required new_state then some now else t.step_up_required_at;
  step_up_approved_at = if is_user_approved new_state then some now else t.step_up_approved_at;
}

unfoldable pub transition_transaction :
    Transaction → TransactionState → Updates → Time → Result TransactionError Transaction
unfolding can_transition_to updated
transition_transaction t new_state u now =
    if not (can_transition_to t.state new_state)
    then err TransactionError.illegal_transition
    else if is_rejected new_state && not (is_some u.rejection_reason)
    then err TransactionError.missing_reason
    else if not (is_rejected new_state) && is_some u.rejection_reason
    then err TransactionError.unexpected_reason
    else ok (updated t new_state u now)
