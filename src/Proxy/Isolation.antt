-- ===== src/Proxy/Isolation.antt =====
-- What the input of a tool can do (tool_proxy.py).
use mandate_gateway.Base.{String, ◌≡◌, refl, ap, ◌⊎◌, true, Option, [], ◌∷◌}
use mandate_gateway.Dict.{Dict}
use mandate_gateway.Clock.{Time}
use mandate_gateway.Transaction.{Transaction}
use mandate_gateway.Execution.{
  ExecutionResult, PaymentExecuteProposalRequest, AuthorizationResult, PaymentExecutionService,
}
use mandate_gateway.Execution.Dispatch.{Dispatches}
use mandate_gateway.Proxy.{
  Value, Builtins, is_authority_key, sanitize_untrusted_input, invoke_sanitized,
  invoke_execution_tool,
}

-- the second input is the first one with authority keys put in anywhere
pub data Padded {V : Type 0} : Dict V → Dict V → Type 0 where
  bare : Padded [] []
  shared : (k : String) (v : V) {d d' : Dict V} → Padded d d' → Padded ((k, v) ∷ d) ((k, v) ∷ d')
  padding :
      (k : String) (v : V) {d d' : Dict V}
      → is_authority_key k ≡ true
      → Padded d d'
      → Padded d ((k, v) ∷ d')

same_sanitized :
    {V : Type 0} {d d' : Dict V}
    → Padded d d'
    → sanitize_untrusted_input d' ≡ sanitize_untrusted_input d
unfolding sanitize_untrusted_input
same_sanitized bare = refl
same_sanitized (shared k v p) = rw (same_sanitized p) refl
same_sanitized (padding k v h p) = rw h (same_sanitized p)

-- nothing changed, or a proposal was executed as the authorization allows
abbrev pub IsControlled :
    AuthorizationResult → Transaction → PaymentExecutionService → PaymentExecutionService → Type 0
IsControlled auth t s s' =
    (s' ≡ s) ⊎ ((p : PaymentExecuteProposalRequest) × Dispatches p auth t s s')

module _ {Object : Type 0} (py : Builtins Object) (auth : AuthorizationResult) (t : Transaction)
    (answer fetched : Option ExecutionResult) (now : Time) (s : PaymentExecutionService) where
  -- Authority keys in the input of a tool, in any letter case and at any place, change neither the
  -- response nor anything that the execution service stores or sends.
  pub authority_ignored :
      (d d' : Dict (Value Object))
      → Padded d d'
      → invoke_execution_tool py d' auth t answer fetched now s
        ≡ invoke_execution_tool py d auth t answer fetched now s
  unfolding invoke_execution_tool
  authority_ignored d d' p =
      ap (λ x. invoke_sanitized py x auth t answer fetched now s) (same_sanitized p)
