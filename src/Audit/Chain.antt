-- ===== src/Audit/Chain.antt =====
-- The hash chain of the ledger: what `verify_chain` accepts, and that appending keeps it.
use mandate_gateway.Base.{
  ℕ, ◌+◌, String, ◌≡◌, refl, ◌↔◌, List, [], ◌∷◌, ◌++◌, arith, eq_iff, ok, get_or,
}
use mandate_gateway.Clock.{Time, time_or_now}
use mandate_gateway.Audit.{
  Canonical, AuditEvent, AuditLedger, EventRequest, ChainStatus, genesis_hash, verify_hash, create,
  append_event, verify_from, verify_chain,
}

module _ {P : Type 0} (digest : Canonical P → String) where
  -- From the hash `expected` the events lead to `head`: each event carries the hash of the one
  -- before it, and its own is the digest of its fields.
  abbrev pub Linked : String → List (AuditEvent P) → String → Type 0
  Linked expected [] head = head ≡ expected
  Linked expected (e ∷ es) head =
      (e.content.previous_hash ≡ expected)
      × (e.event_hash ≡ digest e.content)
      × Linked e.event_hash es head

  verify_from_iff :
      (head : String) (index : ℕ) (expected : String) (es : List (AuditEvent P))
      → (verify_from digest head index expected es ≡ ChainStatus.intact) ↔ Linked expected es head
  unfolding verify_from verify_hash
  verify_from_iff head index expected [] =
      (λ h. ground (arith, eq_iff head expected), λ h. ground (arith, eq_iff head expected))
  verify_from_iff head index expected (e ∷ es) =
      let rec = verify_from_iff head (index + 1) e.event_hash es in
      let previous = eq_iff e.content.previous_hash expected in
      let own = eq_iff e.event_hash (digest e.content) in
      (
        λ h. (
          ground (arith, previous, own),
          ground (arith, previous, own),
          rec.0 (ground (arith, previous, own)),
        ),
        λ h. ground (arith, previous, own, h.0, h.1, rec.1 h.2),
      )

  chain_iff :
      (es : List (AuditEvent P)) (head : String)
      → (verify_chain digest (record { events = es; head_hash = head }) ≡ ChainStatus.intact)
        ↔ Linked genesis_hash es head
  unfolding verify_chain
  chain_iff [] head =
      (λ h. ground (arith, eq_iff head genesis_hash), λ h. ground (arith, eq_iff head genesis_hash))
  chain_iff (e ∷ es) head = verify_from_iff head 0 genesis_hash (e ∷ es)

  -- The chain of a ledger is found intact exactly if its events lead from the genesis hash to the
  -- head, each carrying the hash of the one before it and the digest of its own fields.
  pub intact_iff_Linked :
      (l : AuditLedger P)
      → (verify_chain digest l ≡ ChainStatus.intact) ↔ Linked genesis_hash l.events l.head_hash
  intact_iff_Linked l = chain_iff l.events l.head_hash

  Linked-append :
      (expected head : String) (es : List (AuditEvent P)) (e : AuditEvent P)
      → Linked expected es head
      → e.content.previous_hash ≡ head
      → e.event_hash ≡ digest e.content
      → Linked expected (es ++ e ∷ []) e.event_hash
  Linked-append expected head [] e h previous own = (ground arith, own, refl)
  Linked-append expected head (f ∷ es) e h previous own =
      (h.0, h.1, Linked-append f.event_hash head es e h.2 previous own)

  Linked-init :
      (expected head : String) (es : List (AuditEvent P)) (e : AuditEvent P)
      → Linked expected (es ++ e ∷ []) e.event_hash
      → e.content.previous_hash ≡ head
      → Linked expected es head
  Linked-init expected head [] e h previous = ground (arith, h.0)
  Linked-init expected head (f ∷ es) e h previous =
      (h.0, h.1, Linked-init f.event_hash head es e h.2 previous)

-- the fields of an event that is appended after the hash `previous`
abbrev pub event_content : {P : Type 0} → P → String → String → EventRequest P → Time → Canonical P
event_content no_payload uuid previous r now = record {
  event_id = uuid;
  event_type = r.event_type;
  timestamp = time_or_now r.at now;
  previous_hash = previous;
  transaction_id = r.transaction_id;
  mandate_id = r.mandate_id;
  merchant_id = r.merchant_id;
  buyer_id = r.buyer_id;
  payload = get_or r.payload no_payload;
}

module _ {P : Type 0} (digest : Canonical P → String) (no_payload : P) where
  -- An append always succeeds, with the event that has the fields of the request, the time, the head
  -- as its previous hash and the digest of these as its hash, which is then the last event, and its
  -- hash the head; and the chain is intact afterwards exactly if it was before.
  pub append_event-intact :
      (uuid : String) (r : EventRequest P) (now : Time) (l : AuditLedger P)
      → let content = event_content no_payload uuid l.head_hash r now in
        let e : AuditEvent P = record { content = content; event_hash = digest content } in
        (append_event digest no_payload uuid r now l
          ≡ (ok e, record { events = l.events ++ e ∷ []; head_hash = e.event_hash }))
        × ((verify_chain digest (append_event digest no_payload uuid r now l).1
              ≡ ChainStatus.intact)
            ↔ (verify_chain digest l ≡ ChainStatus.intact))
  unfolding append_event create verify_hash
  append_event-intact uuid r now l =
      let e = create digest no_payload uuid l.head_hash r now in
      let own = (eq_iff e.event_hash (digest e.content)).1 refl in
      rw own (
        refl,
        (
          λ after. (intact_iff_Linked digest l).1 (
              Linked-init digest genesis_hash l.head_hash l.events e
                ((chain_iff digest (l.events ++ e ∷ []) e.event_hash).0 after) refl),
          λ before. (chain_iff digest (l.events ++ e ∷ []) e.event_hash).1 (
              Linked-append digest genesis_hash l.head_hash l.events e
                ((intact_iff_Linked digest l).0 before) refl refl),
        ),
      )
