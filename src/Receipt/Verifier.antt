-- ===== src/Receipt/Verifier.antt =====
-- apps/api/domain/receipt_verifier.py: the five checks of a receipt, in their order. Of the binding
-- errors only whether there are any is modelled, since they end in a message text.
use mandate_gateway.Base.{
  ◌==◌, String, Bool, true, false, not, ◌||◌, Option, none, some, str_eq, get_or,
}
use mandate_gateway.Int.{ℤ, pos, ltb_ℤ, eqb_ℤ}
use mandate_gateway.Text.{is_empty, text_length}
use mandate_gateway.Types.{Currency, PolicyDecision, same_currency, same_decision}
use mandate_gateway.Audit.{
  Canonical, AuditLedger, ChainStatus, verify_chain, get_latest_event_for_transaction,
}
use mandate_gateway.Receipt.{ActionReceipt, ReceiptPayload, Crypto, KeyInput, load_public_key_obj}

pub data VerificationError : Type 0 where
  parsing_failed incomplete hash_mismatch missing_signature : VerificationError
  key_not_loaded invalid_signature undecodable_signature binding_failed : VerificationError
  no_audit_hash chain_corrupted no_event audit_hash_differs : VerificationError

pub record VerificationResult : Type 0 where
  pub receipt_id : String
  pub is_valid : Bool
  pub canonical_payload_valid : Bool
  pub signature_valid : Bool
  pub structure_valid : Bool
  pub binding_valid : Bool
  pub audit_link_valid : Option Bool
  pub error : Option VerificationError

-- the optional expectations of a verification
pub record Expected : Type 0 where
  pub transaction_id : Option String
  pub mandate_id : Option String
  pub merchant_id : Option String
  pub amount_paise : Option ℤ
  pub cart_hash : Option String
  pub currency : Option Currency
  pub decision : Option PolicyDecision

-- `expected is not None and found != expected`, by the test of the type
unfoldable pub differs : {A : Type 0} → (A → A → Bool) → A → Option A → Bool
differs same found none = false
differs same found (some expected) = not (same found expected)

-- `_verify_bindings` finds an error
unfoldable pub has_binding_errors : ReceiptPayload → Expected → Bool
unfolding differs
has_binding_errors p x =
    differs str_eq p.transaction_id x.transaction_id
    || differs str_eq p.mandate_id x.mandate_id
    || differs str_eq p.merchant_id x.merchant_id
    || differs eqb_ℤ p.amount_paise x.amount_paise
    || differs str_eq p.cart_hash x.cart_hash
    || differs same_currency p.currency x.currency
    || differs same_decision p.decision x.decision

unfoldable pub incomplete_structure : ReceiptPayload → Bool
incomplete_structure p =
    is_empty p.receipt_id
    || is_empty p.transaction_id
    || is_empty p.mandate_id
    || is_empty p.merchant_id
    || not (text_length p.cart_hash == 64)
    || ltb_ℤ p.amount_paise (pos 0)

-- a receipt that was parsed before, or the fields of one: their "receipt_id", or "unknown", and the
-- receipt that its constructor makes of them, if it does not raise
pub data ReceiptInput : Type 0 where
  receipt : ActionReceipt → ReceiptInput
  fields : String → Option ActionReceipt → ReceiptInput

abbrev pub failed :
    String → Bool → Bool → Bool → Bool → Option Bool → VerificationError → VerificationResult
failed receipt_id canonical signature structure binding audit error = record {
  receipt_id = receipt_id;
  is_valid = false;
  canonical_payload_valid = canonical;
  signature_valid = signature;
  structure_valid = structure;
  binding_valid = binding;
  audit_link_valid = audit;
  error = some error;
}

abbrev pub succeeded : String → Option Bool → VerificationResult
succeeded receipt_id audit = record {
  receipt_id = receipt_id;
  is_valid = true;
  canonical_payload_valid = true;
  signature_valid = true;
  structure_valid = true;
  binding_valid = true;
  audit_link_valid = audit;
  error = none;
}

-- the result of a check that yields a value or fails
unfoldable pub with_value :
    {A : Type 0} → Option A → VerificationResult → (A → VerificationResult) → VerificationResult
with_value none failure rest = failure
with_value (some a) failure rest = rest a

-- `if failed: return failure`, before the rest
unfoldable pub stop_if : Bool → VerificationResult → VerificationResult → VerificationResult
stop_if true failure rest = failure
stop_if false failure rest = rest

abbrev pub is_intact : ChainStatus → Bool
is_intact ChainStatus.intact = true
is_intact fault = false

module _ (c : Crypto) {P : Type 0} (event_digest : Canonical P → String) where
  -- check 5, on the ledger
  unfoldable pub verify_audit_link : ReceiptPayload → AuditLedger P → VerificationResult
  unfolding stop_if with_value
  verify_audit_link p l =
      let wrong = failed p.receipt_id true true true true (some false) in
      stop_if (is_empty (get_or p.audit_hash "")) (wrong VerificationError.no_audit_hash) (
        stop_if (not (is_intact (verify_chain event_digest l)))
          (wrong VerificationError.chain_corrupted)
          (with_value (get_latest_event_for_transaction p.transaction_id l)
            (wrong VerificationError.no_event)
            (λ e.
              stop_if (not (str_eq e.event_hash (get_or p.audit_hash "")))
                (wrong VerificationError.audit_hash_differs) (succeeded p.receipt_id (some true)))))

  -- check 5, if a ledger is given
  unfoldable pub verify_ledger : ReceiptPayload → Option (AuditLedger P) → VerificationResult
  unfolding verify_audit_link
  verify_ledger p none = succeeded p.receipt_id none
  verify_ledger p (some l) = verify_audit_link p l

  -- check 3, for a signature that is given
  unfoldable pub verify_signature :
      ActionReceipt → String → KeyInput c → VerificationResult → VerificationResult
  unfolding load_public_key_obj stop_if with_value
  verify_signature r signature key rest =
      let wrong = failed r.payload.receipt_id true false true false none in
      with_value (load_public_key_obj c key) (wrong VerificationError.key_not_loaded) (λ k.
        with_value (c.b64decode signature) (wrong VerificationError.undecodable_signature) (λ s.
          stop_if (not (c.check_signature k s r.canonical_payload_hash))
            (wrong VerificationError.invalid_signature) rest))

  -- the five checks in their order
  unfoldable pub verify_receipt :
      ActionReceipt → KeyInput c → Expected → Option (AuditLedger P) → VerificationResult
  unfolding incomplete_structure has_binding_errors verify_signature verify_ledger stop_if
  verify_receipt r key x ledger =
      let p = r.payload in
      stop_if (incomplete_structure p)
        (failed p.receipt_id false false false false none VerificationError.incomplete)
        (stop_if (not (str_eq (c.digest p) r.canonical_payload_hash))
          (failed p.receipt_id false false true false none VerificationError.hash_mismatch)
          (stop_if (is_empty (get_or r.signature ""))
            (failed p.receipt_id true false true false none VerificationError.missing_signature)
            (verify_signature r (get_or r.signature "") key (
              stop_if (has_binding_errors p x)
                (failed p.receipt_id true true true false none VerificationError.binding_failed)
                (verify_ledger p ledger)))))

  -- `ReceiptVerifier.verify`
  unfoldable pub verify :
      ReceiptInput → KeyInput c → Expected → Option (AuditLedger P) → VerificationResult
  unfolding verify_receipt
  verify (ReceiptInput.receipt r) key x ledger = verify_receipt r key x ledger
  verify (ReceiptInput.fields receipt_id none) key x ledger =
      failed receipt_id false false false false none VerificationError.parsing_failed
  verify (ReceiptInput.fields receipt_id (some r)) key x ledger = verify_receipt r key x ledger
