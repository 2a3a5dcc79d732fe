-- ===== src/Proxy.antt =====
-- apps/api/domain/tool_proxy.py. A value of the tool's input is a text, a number or a dict; what
-- Python's `str` and `int` make of a value that is not already of their type is a parameter, and
-- a float, a list or None is outside the model.
pub mod Isolation
mod Tests
use Prim.Native.Char.{Char, code}
use Prim.Native.String.{[] as empty_text, ◌∷◌ as text_cons}
use mandate_gateway.Base.{
  ◌==◌, String, Bool, true, false, not, ◌&&◌, ◌||◌, Option, none, some, List, [], ◌∷◌, str_eq,
  get_or, if◌then◌else◌, Result, ok, err, Action,
}
use mandate_gateway.Int.{ℤ, pos, ltb_ℤ}
use mandate_gateway.Text.{strip, lower, is_empty}
use mandate_gateway.Dict.{Dict, lookup}
use mandate_gateway.Clock.{Time}
use mandate_gateway.Types.{
  Currency, McpOperation, PaymentResultState, RejectionReason, TransactionState,
}
use mandate_gateway.Transaction.{Transaction}
use mandate_gateway.Merchant.Engine.{mcp_operation}
use mandate_gateway.Execution.{
  ExecutionFailureCategory, ExecutionError, ExecutionResult, PaymentExecuteProposalRequest,
  AuthorizationResult, PaymentExecutionService,
}
use mandate_gateway.Execution.Service.{execute_payment}

pub data Value (Object : Type 0) : Type 0 where
  text : String → Value Object
  number : ℤ → Value Object
  object : Object → Value Object

-- the conversions of Python that change the type of a value
pub record Builtins (Object : Type 0) : Type 0 where
  pub str_number : ℤ → String
  pub str_object : Object → String
  pub int_text : String → Option ℤ

abbrev pub text_in : String → List String → Bool
text_in s [] = false
text_in s (t ∷ ts) = str_eq s t || text_in s ts

abbrev pub untrusted_authority_keys : List String
untrusted_authority_keys =
    "admin_override" ∷ "bypass_auth" ∷ "payment_approved" ∷ "skip_policy" ∷ "skip_mandate"
    ∷ "skip_budget" ∷ "skip_nonce" ∷ "skip_step_up" ∷ "force_execute" ∷ "is_authorized"
    ∷ "authorized" ∷ []

abbrev pub is_authority_key : String → Bool
is_authority_key k = text_in (lower k) untrusted_authority_keys

unfoldable pub sanitize_untrusted_input : {V : Type 0} → Dict V → Dict V
sanitize_untrusted_input [] = []
sanitize_untrusted_input ((k, v) ∷ d) =
    let rest = sanitize_untrusted_input d in if is_authority_key k then rest else (k, v) ∷ rest

unfoldable pub starts_with : String → String → Bool
starts_with empty_text s = true
starts_with (text_cons c p) empty_text = false
starts_with (text_cons c p) (text_cons d s) = code c == code d && starts_with p s

-- `re.search`, for a pattern that is a literal
unfoldable pub occurs_in : String → String → Bool
unfolding starts_with
occurs_in p empty_text = starts_with p empty_text
occurs_in p (text_cons c s) = starts_with p (text_cons c s) || occurs_in p s

abbrev pub blocked_url_patterns : List String
blocked_url_patterns =
    "localhost" ∷ "127.0.0.1" ∷ "0.0.0.0" ∷ "169.254." ∷ "file://" ∷ "data:" ∷ "javascript:" ∷ []

abbrev pub any_occurs : List String → String → Bool
any_occurs [] s = false
any_occurs (p ∷ ps) s = occurs_in p s || any_occurs ps s

unfoldable pub validate_url_safety : String → Bool
unfolding occurs_in
validate_url_safety url = not (any_occurs blocked_url_patterns (strip (lower url)))

pub record PaymentExecuteResponse : Type 0 where
  pub success : Bool
  pub transaction_id : String
  pub state : TransactionState
  pub external_reference : Option String
  pub failure_code : Option RejectionReason
  pub failure_category : Option ExecutionFailureCategory
  pub idempotent_replay : Bool
  pub provider_status : Option PaymentResultState
  pub executed_at : Time

unfoldable pub to_response : ExecutionResult → PaymentExecuteResponse
to_response r = record {
  success = r.success;
  transaction_id = r.transaction_id;
  state = r.state;
  external_reference = r.external_reference;
  failure_code = r.failure_code;
  failure_category = r.failure_category;
  idempotent_replay = r.idempotent_replay;
  provider_status = r.provider_status;
  executed_at = r.executed_at;
}

abbrev pub blocked :
    Transaction → RejectionReason → ExecutionFailureCategory → Time → PaymentExecuteResponse
blocked t code category now = record {
  success = false;
  transaction_id = t.transaction_id;
  state = TransactionState.rejected;
  external_reference = none;
  failure_code = some code;
  failure_category = some category;
  idempotent_replay = false;
  provider_status = none;
  executed_at = now;
}

-- `Currency(value)`
abbrev pub currency_of : String → Option Currency
currency_of s =
    if str_eq s "INR" then some Currency.inr else if str_eq s "USD" then some Currency.usd else none

-- `Currency.value`
abbrev pub currency_value : Currency → String
currency_value Currency.inr = "INR"
currency_value Currency.usd = "USD"

infixl 5 ◌>>=◌
abbrev ◌>>=◌ : {A B : Type 0} → Option A → (A → Option B) → Option B
none >>= f = none
some a >>= f = f a

module _ {Object : Type 0} (py : Builtins Object) where
  abbrev pub str : Value Object → String
  str (text s) = s
  str (number n) = py.str_number n
  str (object o) = py.str_object o

  abbrev pub int : Value Object → Option ℤ
  int (text s) = py.int_text s
  int (number n) = some n
  int (object o) = none

  abbrev pub as_text : Value Object → Option String
  as_text (text s) = some s
  as_text _ = none

  -- `str(clean_input.get(key, default))`
  abbrev pub text_field : Dict (Value Object) → String → String → String
  text_field d key default = str (get_or (lookup key d) (text default))

  -- a URL is there, and is unsafe
  unfoldable pub unsafe_url : Option (Value Object) → Bool
  unfolding validate_url_safety
  unsafe_url (some (text url)) = not (is_empty url) && not (validate_url_safety url)
  unsafe_url _ = false

  -- `McpOperation(value)`
  unfoldable pub parsed_operation : Value Object → Option McpOperation
  parsed_operation (text s) = mcp_operation s
  parsed_operation _ = none

  -- the metadata is a dict where it is there
  abbrev pub is_metadata : Option (Value Object) → Bool
  is_metadata none = true
  is_metadata (some (object o)) = true
  is_metadata _ = false

  -- the bounds of the contract's fields
  unfoldable pub proposal_in_bounds : PaymentExecuteProposalRequest → Bool
  proposal_in_bounds p = not (
      is_empty p.transaction_id
      || is_empty p.merchant_id
      || is_empty p.buyer_id
      || is_empty p.mandate_id
      || ltb_ℤ p.amount_paise (pos 0)
      || is_empty p.cart_hash)

  -- Step 4: none is a raise, of a conversion or of the contract's validation.
  unfoldable pub proposal_of :
      Dict (Value Object) → Transaction → McpOperation → Option PaymentExecuteProposalRequest
  unfolding proposal_in_bounds
  proposal_of d t op = do
    amount ← int (get_or (lookup "amount_paise" d) (number t.amount_paise))
    name ← as_text (get_or (lookup "currency" d) (text (currency_value t.currency)))
    currency ← currency_of name
    validated (made amount currency)
    where
      -- the validation of the contract
      validated : PaymentExecuteProposalRequest → Option PaymentExecuteProposalRequest
      validated p =
          if proposal_in_bounds p
            && not (is_empty (text_field d "idempotency_key" "exec:"))
            && is_metadata (lookup "untrusted_metadata" d)
          then some p
          else none

      made : ℤ → Currency → PaymentExecuteProposalRequest
      made amount currency = record {
        transaction_id = text_field d "transaction_id" t.transaction_id;
        merchant_id = text_field d "merchant_id" t.merchant_id;
        buyer_id = text_field d "buyer_id" t.buyer_id;
        mandate_id = text_field d "mandate_id" t.mandate_id;
        amount_paise = amount;
        currency = currency;
        cart_hash = text_field d "cart_hash" (get_or t.cart_hash "");
        operation = op;
      }

  -- a request that the proxy refuses itself
  abbrev pub stopped :
      Transaction
      → RejectionReason
      → ExecutionFailureCategory
      → Time
      → Action PaymentExecutionService ExecutionError PaymentExecuteResponse
  stopped t code category now s = (ok (blocked t code category now), s)

  abbrev pub answer_with :
      Result ExecutionError ExecutionResult → Result ExecutionError PaymentExecuteResponse
  answer_with (ok r) = ok (to_response r)
  answer_with (err x) = err x

  -- Steps 2 to 5, for the sanitized input
  unfoldable pub invoke_sanitized :
      Dict (Value Object)
      → AuthorizationResult
      → Transaction
      → Option ExecutionResult
      → Option ExecutionResult
      → Time
      → Action PaymentExecutionService ExecutionError PaymentExecuteResponse
  unfolding to_response unsafe_url parsed_operation proposal_of
  invoke_sanitized d auth t answer fetched now s =
      if unsafe_url (lookup "target_url" d)
      then stopped t RejectionReason.operation_not_allowed ExecutionFailureCategory.invalid_context
          now s
      else elim (parsed_operation (get_or (lookup "operation" d) (text "create_order"))) [
        | none ↦
            stopped t RejectionReason.operation_not_allowed
              ExecutionFailureCategory.validation_error now s
        | some op ↦ elim (proposal_of d t op) [
          | none ↦
              stopped t RejectionReason.invalid_transaction_state
                ExecutionFailureCategory.validation_error now s
          | some p ↦
              let (r, s') = execute_payment p auth t answer fetched now s in (answer_with r, s')
        ]
      ]

  unfoldable pub invoke_execution_tool :
      Dict (Value Object)
      → AuthorizationResult
      → Transaction
      → Option ExecutionResult
      → Option ExecutionResult
      → Time
      → Action PaymentExecutionService ExecutionError PaymentExecuteResponse
  unfolding sanitize_untrusted_input invoke_sanitized
  invoke_execution_tool d = invoke_sanitized (sanitize_untrusted_input d)
