-- ===== src/Receipt/RoundTrip.antt =====
-- A receipt that was signed is found valid.
use mandate_gateway.Base.{
  String, ◌≡◌, refl, sym, ap, ◌∙◌, inl, inr, true, false, none, some, arith, Bool-cases, ok, get_or,
}
use mandate_gateway.Text.{is_empty}
use mandate_gateway.Clock.{Time, time_or_now}
use mandate_gateway.Audit.{Canonical}
use mandate_gateway.Receipt.{
  ActionReceipt, ReceiptPayload, Crypto, IsSound, KeyInput, SignRequest, in_bounds, action_receipt,
  unsigned, signed, sign_receipt, load_public_key_obj,
}
use mandate_gateway.Receipt.Verifier.{Expected, ReceiptInput, verify}
use mandate_gateway.Receipt.Genuine.{IsComplete, IsBound, IsGenuine}
use mandate_gateway.Receipt.Verified.{valid_iff_IsGenuine}

bounds-IsComplete :
    (p : ReceiptPayload) → in_bounds p ≡ true → is_empty p.receipt_id ≡ false → IsComplete p
unfolding in_bounds
bounds-IsComplete p bounds filled = record {
  receipt_id = filled;
  transaction_id = ground arith;
  mandate_id = ground arith;
  merchant_id = ground arith;
  cart_hash = ground arith;
  amount_paise = ground arith;
}

-- what a receipt for a request states
abbrev pub requested : String → SignRequest → Time → ReceiptPayload
requested uuid q now = record {
  receipt_version = "1.0";
  receipt_id = get_or q.receipt_id uuid;
  transaction_id = q.transaction_id;
  mandate_id = q.mandate_id;
  merchant_id = q.merchant_id;
  policy_version = q.policy_version;
  cart_hash = q.cart_hash;
  amount_paise = q.amount_paise;
  currency = q.currency;
  decision = q.decision;
  execution_tool = q.execution_tool;
  execution_reference = q.execution_reference;
  authorized_at = time_or_now q.authorized_at now;
  audit_hash = q.audit_hash;
}

module _ (c : Crypto) where
  -- the receipt with its hash and its signature
  abbrev pub with_signature : ActionReceipt → c.Bytes → ActionReceipt
  with_signature r s = record r {
    canonical_payload_hash = c.digest r.payload;
    signature = some (c.b64encode s);
  }

  hashed :
      (r : ActionReceipt)
      → in_bounds r.payload ≡ true
      → r.canonical_payload_hash ≡ ""
      → action_receipt c r ≡ ok (record r { canonical_payload_hash = c.digest r.payload })
  unfolding action_receipt
  hashed r bounds blank = rw (bounds, blank) refl

  kept :
      (r : ActionReceipt)
      → in_bounds r.payload ≡ true
      → r.canonical_payload_hash ≡ c.digest r.payload
      → action_receipt c r ≡ ok r
  unfolding action_receipt
  kept r bounds hash = elim (Bool-cases (is_empty r.canonical_payload_hash)) [
    | inl blank ↦
        rw (bounds, blank)
          (ap (λ (h : String). ok (record r { canonical_payload_hash = h })) (sym hash))
    | inr filled ↦ rw (bounds, filled) refl
  ]

  signed_lem :
      (key : c.PrivateKey) (r : ActionReceipt) (s : c.Bytes)
      → c.sign key r.canonical_payload_hash ≡ some s
      → signed c key r ≡ action_receipt c (record r { signature = some (c.b64encode s) })
  unfolding signed
  signed_lem key r s made = rw (made, signed) refl

  -- For a request within the bounds of a receipt, with an identifier that is not empty, signing with
  -- a key that makes a signature returns a receipt that states the fields of the request, each in its
  -- place, has the time of its execution, the digest of what it states and the signature of that
  -- digest, and the verification of that receipt under the public key of the key finds it valid, without a ledger
  -- and for all expectations that the fields of the request meet.
  pub verify-sign_receipt :
      {P : Type 0} (digest : Canonical P → String) (sound : IsSound c) (key : c.PrivateKey)
      (uuid : String) (q : SignRequest) (now : Time) (x : Expected) (s : c.Bytes)
      → in_bounds (requested uuid q now) ≡ true
      → is_empty (get_or q.receipt_id uuid) ≡ false
      → c.sign key (c.digest (requested uuid q now)) ≡ some s
      → IsBound (requested uuid q now) x
      → (r : ActionReceipt) × (sign_receipt c key uuid q now ≡ ok r)
        × (r.payload ≡ requested uuid q now)
        × (r.executed_at ≡ q.executed_at)
        × (r.created_at ≡ now)
        × (r.canonical_payload_hash ≡ c.digest (requested uuid q now))
        × (r.signature ≡ some (c.b64encode s))
        × (let result =
              verify c digest
                (ReceiptInput.receipt r)
                (KeyInput.object (c.public_key key))
                x
                none in
            result.is_valid ≡ true)
  unfolding sign_receipt unsigned load_public_key_obj
  verify-sign_receipt digest sound key uuid q now x s bounds filled made bound =
      let u = unsigned c uuid q now in
      let r = with_signature u s in
      let genuine : IsGenuine c digest r (KeyInput.object (c.public_key key)) x none = record {
        complete = bounds-IsComplete u.payload bounds filled;
        hash = refl;
        is_signed = record {
          signature = c.b64encode s;
          signature_given = refl;
          not_empty = sound.signature_nonempty key (c.digest u.payload) s made;
          public_key = c.public_key key;
          loaded = refl;
          bytes = s;
          decoded = sound.b64_round_trip s;
          checked = sound.signature_checks key (c.digest u.payload) s made;
        };
        bound = bound;
        linked = λ l e. absurd (ground arith);
      } in
      (
        r,
        rw (hashed u bounds refl) (
            signed_lem key (record u { canonical_payload_hash = c.digest u.payload }) s made
            ∙ kept r bounds refl),
        refl,
        refl,
        refl,
        refl,
        refl,
        (valid_iff_IsGenuine c digest r (KeyInput.object (c.public_key key)) x none).1 genuine,
      )
