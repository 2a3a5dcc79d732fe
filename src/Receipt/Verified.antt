-- ===== src/Receipt/Verified.antt =====
-- Which receipts `ReceiptVerifier.verify` finds valid.
use mandate_gateway.Base.{
  String, ◌≡◌, refl, sym, ap, ◌∙◌, ◌↔◌, Bool, true, false, not, Option, none, some, str_eq, get_or,
  arith, eq_iff,
}
use mandate_gateway.Text.{is_empty}
use mandate_gateway.Iff.{not-false}
use mandate_gateway.Audit.{
  Canonical, AuditEvent, AuditLedger, ChainStatus, verify_chain, get_latest_event_for_transaction,
}
use mandate_gateway.Receipt.{ActionReceipt, ReceiptPayload, Crypto, KeyInput, load_public_key_obj}
use mandate_gateway.Receipt.Verifier.{
  VerificationResult, ReceiptInput, Expected, has_binding_errors, incomplete_structure, stop_if,
  with_value, is_intact, verify_audit_link, verify_ledger, verify_signature, verify,
}
use mandate_gateway.Receipt.Genuine.{IsLinked, IsSigned, IsGenuine, bindings_iff, incomplete_iff}

some_eq : {a b : String} → ◌≡◌ {A = Option String} (some a) (some b) → a ≡ b
some_eq {a} h = ap (λ (o : Option String). get_or o a) h

get_or_given : (o : Option String) (s : String) → o ≡ some s → o ≡ some (get_or o "")
get_or_given o s h = ground arith

-- a result behind a check is valid if the check passes and the rest is valid
stop_if_iff :
    (b : Bool) (failure rest : VerificationResult)
    → failure.is_valid ≡ false
    → ((stop_if b failure rest).is_valid ≡ true) ↔ ((b ≡ false) × (rest.is_valid ≡ true))
unfolding stop_if
stop_if_iff true failure rest wrong = (λ h. absurd (ground arith), λ h. absurd (ground arith))
stop_if_iff false failure rest wrong = (λ h. (refl, h), λ h. h.1)

with_value_iff :
    {A : Type 0} (o : Option A) (failure : VerificationResult) (rest : A → VerificationResult)
    → failure.is_valid ≡ false
    → ((with_value o failure rest).is_valid ≡ true)
      ↔ ((a : A) × (o ≡ some a) × ((rest a).is_valid ≡ true))
unfolding with_value
with_value_iff none failure rest wrong =
    (λ h. absurd (ground arith), λ h. absurd (ground (arith, h.1)))
with_value_iff {A} (some a) failure rest wrong =
    (λ h. (a, refl, h), λ h. rw (ap (λ (o : Option A). get_or o a) h.1) h.2)

intact_iff : (s : ChainStatus) → (not (is_intact s) ≡ false) ↔ (s ≡ ChainStatus.intact)
intact_iff ChainStatus.intact = (λ h. refl, λ h. refl)
intact_iff ChainStatus.empty_head_differs = (λ h. absurd (ground arith), λ h. absurd (ground arith))
intact_iff (ChainStatus.chain_broken n) = (λ h. absurd (ground arith), λ h. absurd (ground arith))
intact_iff (ChainStatus.hash_invalid n) = (λ h. absurd (ground arith), λ h. absurd (ground arith))
intact_iff ChainStatus.head_differs = (λ h. absurd (ground arith), λ h. absurd (ground arith))

given_iff :
    (o : Option String)
    → (is_empty (get_or o "") ≡ false) ↔ ((s : String) × (o ≡ some s) × (is_empty s ≡ false))
given_iff none = (λ h. absurd (ground arith), λ h. absurd (ground (arith, h.1)))
given_iff (some s) = (λ h. (s, refl, h), λ h. ground (arith, h.1, h.2))

-- the tests on the receipt's audit hash, against the hash of the event
same_hash :
    (o : Option String) (h a : String)
    → o ≡ some a
    → is_empty a ≡ false
    → not (str_eq h (get_or o "")) ≡ false
    → (o ≡ some h) × (is_empty h ≡ false)
same_hash o h a is filled same = (ground (arith, eq_iff h a), ground (arith, eq_iff h a))

has_hash :
    (o : Option String) (h : String)
    → o ≡ some h
    → is_empty h ≡ false
    → (is_empty (get_or o "") ≡ false) × (not (str_eq h (get_or o "")) ≡ false)
has_hash o h is filled = (ground arith, ground (arith, eq_iff h h))

module _ (c : Crypto) {P : Type 0} (digest : Canonical P → String) where
  audit_link_iff :
      (p : ReceiptPayload) (l : AuditLedger P)
      → ((verify_audit_link c digest p l).is_valid ≡ true) ↔ IsLinked digest p l
  unfolding verify_audit_link
  audit_link_iff p l =
      let first = stop_if_iff (is_empty (get_or p.audit_hash "")) _ _ refl in
      let second = stop_if_iff (not (is_intact (verify_chain digest l))) _ _ refl in
      let third = with_value_iff (get_latest_event_for_transaction p.transaction_id l) _ _ refl in
      let last = λ (e : AuditEvent P).
        stop_if_iff (not (str_eq e.event_hash (get_or p.audit_hash ""))) _ _ refl in
      (
        λ h.
            let (given, h1) = first.0 h in
            let (whole, h2) = second.0 h1 in
            let (e, found, h3) = third.0 h2 in
            let (same, done) = (last e).0 h3 in
            let (a, is, filled) = (given_iff p.audit_hash).0 given in
            let hash = same_hash p.audit_hash e.event_hash a is filled same in
            record {
              intact = (intact_iff _).0 whole;
              event = e;
              latest = found;
              audit_hash = hash.0;
              given = hash.1;
            },
        λ k.
            let hash = has_hash p.audit_hash k.event.event_hash k.audit_hash k.given in
            first.1 (
              hash.0,
              second.1 (
                (intact_iff _).1 k.intact,
                third.1 (k.event, k.latest, (last k.event).1 (hash.1, refl)),
              ),
            ),
      )

  ledger_iff :
      (p : ReceiptPayload) (ledger : Option (AuditLedger P))
      → ((verify_ledger c digest p ledger).is_valid ≡ true)
        ↔ ((l : AuditLedger P) → ledger ≡ some l → IsLinked digest p l)
  unfolding verify_ledger
  ledger_iff p none = (λ h l e. absurd (ground arith), λ h. refl)
  ledger_iff p (some l) = (
    λ h k e.
        rw (sym (ap (λ (o : Option (AuditLedger P)). get_or o l) e)) ((audit_link_iff p l).0 h),
    λ h. (audit_link_iff p l).1 (h l refl),
  )

  module _ (r : ActionReceipt) (key : KeyInput c) where
    signature_iff :
        (signature : String) (rest : VerificationResult)
        → r.signature ≡ some signature
        → is_empty signature ≡ false
        → ((verify_signature c digest r signature key rest).is_valid ≡ true)
          ↔ (IsSigned c r key × (rest.is_valid ≡ true))
    unfolding verify_signature
    signature_iff signature rest given not_empty =
        let first = with_value_iff (load_public_key_obj c key) _ _ refl in
        let second = λ (k : c.PublicKey). with_value_iff (c.b64decode signature) _ _ refl in
        let last = λ (k : c.PublicKey) (s : c.Bytes).
          stop_if_iff (not (c.check_signature k s r.canonical_payload_hash)) _ rest refl in
        (
          λ h.
              let (k, loaded, h1) = first.0 h in
              let (s, decoded, h2) = (second k).0 h1 in
              let (checked, done) = (last k s).0 h2 in
              (
                record {
                  signature = signature;
                  signature_given = given;
                  not_empty = not_empty;
                  public_key = k;
                  loaded = loaded;
                  bytes = s;
                  decoded = decoded;
                  checked = (not-false _).0 checked;
                },
                done,
              ),
          λ (s, done).
              let same : s.signature ≡ signature = some_eq (sym s.signature_given ∙ given) in
              first.1 (
                s.public_key,
                s.loaded,
                (second s.public_key).1 (
                  s.bytes,
                  rw (sym same) s.decoded,
                  (last s.public_key s.bytes).1 ((not-false _).1 s.checked, done),
                ),
              ),
        )

    -- A receipt is found valid exactly if it is complete, its canonical hash is the digest of its
    -- payload, its signature of that hash checks under the public key, everything that is expected
    -- is what it says, and, if a ledger is given, the ledger's chain is intact and its latest event
    -- of the transaction is the one whose hash the receipt carries.
    pub valid_iff_IsGenuine :
        (x : Expected) (ledger : Option (AuditLedger P))
        → ((verify c digest (ReceiptInput.receipt r) key x ledger).is_valid ≡ true)
          ↔ IsGenuine c digest r key x ledger
    unfolding verify
    valid_iff_IsGenuine x ledger =
        let first = stop_if_iff (incomplete_structure r.payload) _ _ refl in
        let second =
          stop_if_iff (not (str_eq (c.digest r.payload) r.canonical_payload_hash)) _ _ refl in
        let third = stop_if_iff (is_empty (get_or r.signature "")) _ _ refl in
        let last =
          stop_if_iff (has_binding_errors r.payload x) _ (verify_ledger c digest r.payload ledger)
            refl in
        let hashes = eq_iff (c.digest r.payload) r.canonical_payload_hash in
        (
          λ h.
              let (complete, h1) = first.0 h in
              let (hash, h2) = second.0 h1 in
              let (given, h3) = third.0 h2 in
              let (s, is, filled) = (given_iff r.signature).0 given in
              let (is_signed, h4) =
                (signature_iff (get_or r.signature "") _ (get_or_given r.signature s is) given).0
                  h3 in
              let (bound, h5) = last.0 h4 in
              record {
                complete = (incomplete_iff r.payload).0 complete;
                hash = sym (hashes.0 ((not-false _).0 hash));
                is_signed = is_signed;
                bound = (bindings_iff r.payload x).0 bound;
                linked = (ledger_iff r.payload ledger).0 h5;
              },
          λ g.
              let s = g.is_signed in
              let given = (given_iff r.signature).1 (s.signature, s.signature_given, s.not_empty) in
              first.1 (
                (incomplete_iff r.payload).1 g.complete,
                second.1 (
                  (not-false _).1 (hashes.1 (sym g.hash)),
                  third.1 (
                    given,
                    (signature_iff (get_or r.signature "") _
                          (get_or_given r.signature s.signature s.signature_given) given).1
                        (
                          s,
                          last.1 (
                            (bindings_iff r.payload x).1 g.bound,
                            (ledger_iff r.payload ledger).1 g.linked,
                          ),
                        ),
                  ),
                ),
              ),
        )
