-- ===== src/Audit/Tamper.antt =====
-- What an intact chain says of the events: its head hash pins down the whole history.
use mathlib.Core.List.{reverse, reverse_aux, reverse-reverse}
use mandate_gateway.Base.{String, ◌≡◌, ◌≢◌, refl, sym, ap, ◌∙◌, ◌⊎◌, inl, inr, List, [], ◌∷◌}
use mandate_gateway.Audit.{
  Canonical, AuditEvent, AuditLedger, ChainStatus, genesis_hash, verify_chain,
}
use mandate_gateway.Audit.Chain.{Linked, intact_iff_Linked}

-- the event is one of the list
abbrev pub Among : {P : Type 0} → AuditEvent P → List (AuditEvent P) → Type 0
Among e [] = ⊥
Among e (f ∷ fs) = (e ≡ f) ⊎ Among e fs

module _ {P : Type 0} (digest : Canonical P → String) where
  -- Among the events of two histories, SHA-256 has no collision, and no digest is the genesis hash.
  pub record CollisionFree (es fs : List (AuditEvent P)) : Type 0 where
    pub distinct :
        (e f : AuditEvent P)
        → Among e es
        → Among f fs
        → digest e.content ≡ digest f.content
        → e.content ≡ f.content
    pub left : (e : AuditEvent P) → Among e es → digest e.content ≢ genesis_hash
    pub right : (f : AuditEvent P) → Among f fs → digest f.content ≢ genesis_hash

  -- the chain read backwards, from its head to the genesis hash
  abbrev Backwards : String → List (AuditEvent P) → Type 0
  Backwards head [] = head ≡ genesis_hash
  Backwards head (e ∷ es) =
      (e.event_hash ≡ head)
      × (e.event_hash ≡ digest e.content)
      × Backwards e.content.previous_hash es

  Linked-Backwards :
      (expected head : String) (es rs : List (AuditEvent P))
      → Linked digest expected es head
      → Backwards expected rs
      → Backwards head (reverse_aux es rs)
  Linked-Backwards expected head [] rs h b = rw h b
  Linked-Backwards expected head (e ∷ es) rs h b =
      Linked-Backwards e.event_hash head es (e ∷ rs) h.2 (refl, h.1, rw h.0 b)

  Among-reverse_aux :
      (e : AuditEvent P) (es rs : List (AuditEvent P))
      → Among e (reverse_aux es rs)
      → Among e es ⊎ Among e rs
  Among-reverse_aux e [] rs h = inr h
  Among-reverse_aux e (f ∷ es) rs h = elim (Among-reverse_aux e es (f ∷ rs) h) [
    | inl early ↦ inl (inr early)
    | inr (inl here) ↦ inl (inl here)
    | inr (inr late) ↦ inr late
  ]

  Among-reverse : (e : AuditEvent P) (es : List (AuditEvent P)) → Among e (reverse es) → Among e es
  Among-reverse e es h = elim (Among-reverse_aux e es [] h) [
    | inl early ↦ early
    | inr late ↦ absurd late
  ]

  CollisionFree-reverse :
      (es fs : List (AuditEvent P)) → CollisionFree es fs → CollisionFree (reverse es) (reverse fs)
  CollisionFree-reverse es fs c = record {
    distinct = λ e f he hf. c.distinct e f (Among-reverse e es he) (Among-reverse f fs hf);
    left = λ e he. c.left e (Among-reverse e es he);
    right = λ f hf. c.right f (Among-reverse f fs hf);
  }

  CollisionFree-tail :
      (e f : AuditEvent P) (es fs : List (AuditEvent P))
      → CollisionFree (e ∷ es) (f ∷ fs)
      → CollisionFree es fs
  CollisionFree-tail e f es fs c = record {
    distinct = λ e' f' he hf. c.distinct e' f' (inr he) (inr hf);
    left = λ e' he. c.left e' (inr he);
    right = λ f' hf. c.right f' (inr hf);
  }

  Backwards-unique :
      (head : String) (es fs : List (AuditEvent P))
      → CollisionFree es fs
      → Backwards head es
      → Backwards head fs
      → es ≡ fs
  Backwards-unique head [] [] c h k = refl
  Backwards-unique head [] (f ∷ fs) c h k = absurd (c.right f (inl refl) (sym k.1 ∙ k.0 ∙ h))
  Backwards-unique head (e ∷ es) [] c h k = absurd (c.left e (inl refl) (sym h.1 ∙ h.0 ∙ k))
  Backwards-unique head (e ∷ es) (f ∷ fs) c h k =
      let hashes : e.event_hash ≡ f.event_hash = h.0 ∙ sym k.0 in
      let same = c.distinct e f (inl refl) (inl refl) (sym h.1 ∙ hashes ∙ k.1) in
      let previous : e.content.previous_hash ≡ f.content.previous_hash =
        ap (λ (x : Canonical P). x.previous_hash) same in
      let rest =
        Backwards-unique f.content.previous_hash es fs (CollisionFree-tail e f es fs c)
          (rw (sym previous) h.2) k.2 in
      λ i. record { content = same i; event_hash = hashes i } ∷ rest i

  -- Two ledgers whose chains are intact and whose head hashes agree hold the same events, unless
  -- two of the events have colliding digests or one has the genesis hash as its digest: an event
  -- that is changed, left out, put in or moved is found by `verify_chain`, or changes the head.
  pub same_head-same_events :
      (l k : AuditLedger P)
      → CollisionFree l.events k.events
      → verify_chain digest l ≡ ChainStatus.intact
      → verify_chain digest k ≡ ChainStatus.intact
      → l.head_hash ≡ k.head_hash
      → l.events ≡ k.events
  same_head-same_events l k c hl hk heads =
      let bl =
        Linked-Backwards genesis_hash l.head_hash l.events [] ((intact_iff_Linked digest l).0 hl)
          refl in
      let bk =
        Linked-Backwards genesis_hash k.head_hash k.events [] ((intact_iff_Linked digest k).0 hk)
          refl in
      let same =
        Backwards-unique k.head_hash (reverse l.events) (reverse k.events)
          (CollisionFree-reverse l.events k.events c) (rw (sym heads) bl) bk in
      sym (reverse-reverse l.events) ∙ ap reverse same ∙ reverse-reverse k.events
