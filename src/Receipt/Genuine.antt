-- ===== src/Receipt/Genuine.antt =====
-- What a receipt that passes the verification satisfies, beside `ReceiptVerifier.verify`.
use mandate_gateway.Base.{
  String, ◌≡◌, refl, ap, ◌∙◌, ◌↔◌, Bool, true, false, Option, none, some, str_eq, get_or, arith,
  eq_iff,
}
use mandate_gateway.Int.{ℤ, pos, ◌≤ℤ◌, eqb_ℤ, eq_of_parts}
use mandate_gateway.Text.{is_empty, text_length}
use mandate_gateway.Types.{Currency, PolicyDecision, same_currency, same_decision}
use mandate_gateway.Audit.{
  Canonical, AuditEvent, AuditLedger, ChainStatus, verify_chain, get_latest_event_for_transaction,
}
use mandate_gateway.Receipt.{ActionReceipt, ReceiptPayload, Crypto, KeyInput, load_public_key_obj}
use mandate_gateway.Receipt.Verifier.{Expected, differs, has_binding_errors, incomplete_structure}

-- the identifiers are there, the cart hash has the length of a digest, and the amount is not
-- negative
pub record IsComplete (p : ReceiptPayload) : Type 0 where
  pub receipt_id : is_empty p.receipt_id ≡ false
  pub transaction_id : is_empty p.transaction_id ≡ false
  pub mandate_id : is_empty p.mandate_id ≡ false
  pub merchant_id : is_empty p.merchant_id ≡ false
  pub cart_hash : text_length p.cart_hash ≡ 64
  pub amount_paise : pos 0 ≤ℤ p.amount_paise

-- what is expected is what was found
abbrev pub AsExpected : {A : Type 0} → A → Option A → Type 0
AsExpected {A} found expected = (v : A) → expected ≡ some v → found ≡ v

pub record IsBound (p : ReceiptPayload) (x : Expected) : Type 0 where
  pub transaction_id : AsExpected p.transaction_id x.transaction_id
  pub mandate_id : AsExpected p.mandate_id x.mandate_id
  pub merchant_id : AsExpected p.merchant_id x.merchant_id
  pub amount_paise : AsExpected p.amount_paise x.amount_paise
  pub cart_hash : AsExpected p.cart_hash x.cart_hash
  pub currency : AsExpected p.currency x.currency
  pub decision : AsExpected p.decision x.decision

-- the ledger's chain is intact, and the latest event of the transaction is the receipt's
pub record IsLinked {P : Type 0} (digest : Canonical P → String) (p : ReceiptPayload)
    (l : AuditLedger P) : Type 0 where
  pub intact : verify_chain digest l ≡ ChainStatus.intact
  pub event : AuditEvent P
  pub latest : get_latest_event_for_transaction p.transaction_id l ≡ some event
  pub audit_hash : p.audit_hash ≡ some event.event_hash
  pub given : is_empty event.event_hash ≡ false

-- the signature of the canonical hash checks under the public key
pub record IsSigned (c : Crypto) (r : ActionReceipt) (key : KeyInput c) : Type 0 where
  pub signature : String
  pub signature_given : r.signature ≡ some signature
  pub not_empty : is_empty signature ≡ false
  pub public_key : c.PublicKey
  pub loaded : load_public_key_obj c key ≡ some public_key
  pub bytes : c.Bytes
  pub decoded : c.b64decode signature ≡ some bytes
  pub checked : c.check_signature public_key bytes r.canonical_payload_hash ≡ true

pub record IsGenuine (c : Crypto) {P : Type 0} (digest : Canonical P → String) (r : ActionReceipt)
    (key : KeyInput c) (x : Expected) (ledger : Option (AuditLedger P)) : Type 0 where
  pub complete : IsComplete r.payload
  pub hash : r.canonical_payload_hash ≡ c.digest r.payload
  pub is_signed : IsSigned c r key
  pub bound : IsBound r.payload x
  pub linked : (l : AuditLedger P) → ledger ≡ some l → IsLinked digest r.payload l

differs_iff :
    {A : Type 0} (same : A → A → Bool)
    → ((a b : A) → (same a b ≡ true) ↔ (a ≡ b))
    → (found : A) (expected : Option A)
    → (differs same found expected ≡ false) ↔ AsExpected found expected
unfolding differs
differs_iff {A} same h found none = (λ e v q. absurd (ground arith), λ e. refl)
differs_iff {A} same h found (some v) = (
  λ e w q. (h found v).0 (ground arith) ∙ ap (λ (o : Option A). get_or o v) q,
  λ e. ground (arith, (h found v).1 (e v refl)),
)

int_iff : (a b : ℤ) → (eqb_ℤ a b ≡ true) ↔ (a ≡ b)
int_iff a b = (λ h. eq_of_parts a b (ground arith), λ h. ground arith)

currency_iff : (a b : Currency) → (same_currency a b ≡ true) ↔ (a ≡ b)
unfolding same_currency
currency_iff a b = (λ h. ground arith, λ h. ground arith)

decision_iff : (a b : PolicyDecision) → (same_decision a b ≡ true) ↔ (a ≡ b)
unfolding same_decision
decision_iff a b = (λ h. ground arith, λ h. ground arith)

pub bindings_iff :
    (p : ReceiptPayload) (x : Expected) → (has_binding_errors p x ≡ false) ↔ IsBound p x
unfolding has_binding_errors
bindings_iff p x =
    let transaction = differs_iff str_eq eq_iff p.transaction_id x.transaction_id in
    let mandate = differs_iff str_eq eq_iff p.mandate_id x.mandate_id in
    let merchant = differs_iff str_eq eq_iff p.merchant_id x.merchant_id in
    let amount = differs_iff eqb_ℤ int_iff p.amount_paise x.amount_paise in
    let cart = differs_iff str_eq eq_iff p.cart_hash x.cart_hash in
    let currency = differs_iff same_currency currency_iff p.currency x.currency in
    let decision = differs_iff same_decision decision_iff p.decision x.decision in
    (
      λ h. record {
        transaction_id = transaction.0 (ground arith);
        mandate_id = mandate.0 (ground arith);
        merchant_id = merchant.0 (ground arith);
        amount_paise = amount.0 (ground arith);
        cart_hash = cart.0 (ground arith);
        currency = currency.0 (ground arith);
        decision = decision.0 (ground arith);
      },
      λ b. ground (
        arith,
        transaction.1 b.transaction_id,
        mandate.1 b.mandate_id,
        merchant.1 b.merchant_id,
        amount.1 b.amount_paise,
        cart.1 b.cart_hash,
        currency.1 b.currency,
        decision.1 b.decision,
      ),
    )

pub incomplete_iff : (p : ReceiptPayload) → (incomplete_structure p ≡ false) ↔ IsComplete p
unfolding incomplete_structure
incomplete_iff p = (
  λ h. record {
    receipt_id = ground arith;
    transaction_id = ground arith;
    mandate_id = ground arith;
    merchant_id = ground arith;
    cart_hash = ground arith;
    amount_paise = ground arith;
  },
  λ k. ground (
    arith, k.receipt_id, k.transaction_id, k.mandate_id, k.merchant_id, k.cart_hash, k.amount_paise,
  ),
)
