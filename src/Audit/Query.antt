-- ===== src/Audit/Query.antt =====
-- What a query of the ledger returns.
use mandate_gateway.Base.{
  ℕ, zero, suc, ◌+◌, ◌-◌, ◌≡◌, refl, sym, ◌∙◌, inl, inr, true, false, Option, none, some, List, [],
  ◌∷◌, ◌++◌, arith, ltb, length, Bool-cases, if◌then◌else◌,
}
use mandate_gateway.Int.{ℤ, pos, pos_part, ltb_ℤ}
use mandate_gateway.Ladder.{append_assoc, append_nil}
use mandate_gateway.Audit.{
  AuditEvent, AuditLedger, Filters, matches, reached, query_from, query_events,
}

module _ {A : Type 0} where
  abbrev pub take : ℕ → List A → List A
  take zero xs = []
  take (suc n) [] = []
  take (suc n) (x ∷ xs) = x ∷ take n xs

  abbrev pub drop : ℕ → List A → List A
  drop zero xs = xs
  drop (suc n) [] = []
  drop (suc n) (x ∷ xs) = drop n xs

  take_nil : (n : ℕ) → take n [] ≡ []
  take_nil zero = refl
  take_nil (suc n) = refl

  length-snoc : (xs : List A) (x : A) → length (xs ++ x ∷ []) ≡ suc (length xs)
  length-snoc [] x = refl
  length-snoc (y ∷ xs) x = omega (arith, length-snoc xs x)

-- how many events a limit lets through: at least one
abbrev pub cap : ℤ → ℕ
cap limit = if ltb (pos_part limit) 1 then 1 else pos_part limit

module _ {P : Type 0} where
  -- the events that the filters let through, in their order
  abbrev pub selected : Filters → List (AuditEvent P) → List (AuditEvent P)
  selected f [] = []
  selected f (e ∷ es) = if matches f e then e ∷ selected f es else selected f es

  abbrev pub limited : Option ℤ → List (AuditEvent P) → List (AuditEvent P)
  limited none es = es
  limited (some limit) es = take (cap limit) es

  -- one round of the loop, by the tests that it makes
  module _ (f : Filters) (limit : Option ℤ) (offset : ℤ) (skipped : ℕ)
      (results : List (AuditEvent P)) (e : AuditEvent P) (es : List (AuditEvent P)) where
    miss :
        matches f e ≡ false
        → query_from f limit offset skipped results (e ∷ es)
          ≡ query_from f limit offset skipped results es
    unfolding query_from
    miss h = ground arith

    hit_early :
        matches f e ≡ true
        → ltb_ℤ (pos skipped) offset ≡ true
        → query_from f limit offset skipped results (e ∷ es)
          ≡ query_from f limit offset (skipped + 1) results es
    unfolding query_from
    hit_early h k = ground arith

    hit_last :
        matches f e ≡ true
        → ltb_ℤ (pos skipped) offset ≡ false
        → reached limit (results ++ e ∷ []) ≡ true
        → query_from f limit offset skipped results (e ∷ es) ≡ results ++ e ∷ []
    unfolding query_from
    hit_last h k r = ground arith

    hit_more :
        matches f e ≡ true
        → ltb_ℤ (pos skipped) offset ≡ false
        → reached limit (results ++ e ∷ []) ≡ false
        → query_from f limit offset skipped results (e ∷ es)
          ≡ query_from f limit offset skipped (results ++ e ∷ []) es
    unfolding query_from
    hit_more h k r = ground arith

  module _ (f : Filters) (offset : ℤ) where
    -- past the offset, without a limit
    collect_all :
        (skipped : ℕ) (results es : List (AuditEvent P))
        → ltb_ℤ (pos skipped) offset ≡ false
        → query_from f none offset skipped results es ≡ results ++ selected f es
    unfolding query_from reached
    collect_all skipped results [] h = sym (append_nil results)
    collect_all skipped results (e ∷ es) h = elim (Bool-cases (matches f e)) [
      | inl hit ↦
          hit_more f none offset skipped results e es hit h refl
          ∙ collect_all skipped (results ++ e ∷ []) es h
          ∙ append_assoc results (e ∷ []) (selected f es)
          ∙ rw hit refl
      | inr other ↦
          miss f none offset skipped results e es other
          ∙ collect_all skipped results es h
          ∙ rw other refl
    ]

    -- past the offset, with `suc n` events to go
    collect :
        (limit : ℤ) (n skipped : ℕ) (results es : List (AuditEvent P))
        → ltb_ℤ (pos skipped) offset ≡ false
        → suc n + length results ≡ cap limit
        → query_from f (some limit) offset skipped results es
          ≡ results ++ take (suc n) (selected f es)
    unfolding query_from reached
    collect limit n skipped results [] h c = sym (append_nil results)
    collect limit zero skipped results (e ∷ es) h c = elim (Bool-cases (matches f e)) [
      | inl hit ↦
          hit_last f (some limit) offset skipped results e es hit h
            (ground (arith, length-snoc results e))
          ∙ rw hit refl
      | inr other ↦
          miss f (some limit) offset skipped results e es other
          ∙ collect limit zero skipped results es h c
          ∙ rw other refl
    ]
    collect limit (suc n) skipped results (e ∷ es) h c = elim (Bool-cases (matches f e)) [
      | inl hit ↦
          hit_more f (some limit) offset skipped results e es hit h
            (ground (arith, length-snoc results e))
          ∙ collect limit n skipped (results ++ e ∷ []) es h
              (omega (arith, length-snoc results e, c))
          ∙ append_assoc results (e ∷ []) (take (suc n) (selected f es))
          ∙ rw hit refl
      | inr other ↦
          miss f (some limit) offset skipped results e es other
          ∙ collect limit (suc n) skipped results es h c
          ∙ rw other refl
    ]

    past_offset :
        (limit : Option ℤ) (skipped : ℕ) (es : List (AuditEvent P))
        → ltb_ℤ (pos skipped) offset ≡ false
        → query_from f limit offset skipped [] es ≡ limited limit (selected f es)
    past_offset none skipped es h = collect_all skipped [] es h
    past_offset (some limit) skipped es h = elim (Bool-cases (ltb (pos_part limit) 1)) [
      | inl low ↦ collect limit 0 skipped [] es h (ground arith) ∙ rw low refl
      | inr high ↦
          let e : suc (pos_part limit - 1) ≡ pos_part limit = ground arith in
          collect limit (pos_part limit - 1) skipped [] es h (ground arith) ∙ rw (high, e) refl
    ]

    -- from the start, with `n` events to skip
    skip :
        (limit : Option ℤ) (n skipped : ℕ) (es : List (AuditEvent P))
        → n + skipped ≡ pos_part offset
        → query_from f limit offset skipped [] es ≡ limited limit (drop n (selected f es))
    unfolding query_from
    skip limit zero skipped es h = past_offset limit skipped es (ground arith)
    skip none (suc n) skipped [] h = refl
    skip (some limit) (suc n) skipped [] h = sym (take_nil (cap limit))
    skip limit (suc n) skipped (e ∷ es) h = elim (Bool-cases (matches f e)) [
      | inl hit ↦
          hit_early f limit offset skipped [] e es hit (ground arith)
          ∙ skip limit n (skipped + 1) es (omega (arith, h))
          ∙ rw hit refl
      | inr other ↦
          miss f limit offset skipped [] e es other
          ∙ skip limit (suc n) skipped es h
          ∙ rw other refl
    ]

    -- A query returns the events that pass all its filters, in their order, without as many of the
    -- first as the offset says (none for an offset below zero), and of the rest all without a limit,
    -- or as many as the limit says, but one for a limit below one.
    pub query_selected :
        (limit : Option ℤ) (l : AuditLedger P)
        → query_events f limit offset l
          ≡ limited limit (drop (pos_part offset) (selected f l.events))
    unfolding query_events
    query_selected limit l = skip limit (pos_part offset) 0 l.events (omega arith)
