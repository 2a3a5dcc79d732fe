-- ===== src/Recovery/Released.antt =====
-- What the audit of budget reservations does to the budgets (reconciliation.py).
use mandate_gateway.Base.{
  String, ◌≡◌, refl, inl, inr, Bool, true, false, Option, none, some, List, [], ◌∷◌, Bool-cases,
  Result-cases, get_or, if◌then◌else◌, ◌>>=◌, pure,
}
use mandate_gateway.Int.{pos, ltb_ℤ}
use mandate_gateway.Dict.{Dict}
use mandate_gateway.Clock.{Time}
use mandate_gateway.Budget.{DailyBudget, BudgetReservation, BudgetEngine}
use mandate_gateway.Budget.Engine.{release}
use mandate_gateway.Budget.Moves.{release-Move}
use mandate_gateway.Budget.Accounting.{IsSound, Move-IsSound}
use mandate_gateway.Recovery.{
  TransactionEntry, OrphanedReservationRecord, is_reserved_state, is_stranded, reservation_of,
  release_orphan, audit_entry, audit_entries, audit_mandates, audit_budget_reservations, Audit,
}
use mandate_gateway.Recovery.Evidence.{
  Among, HasFailedFor, Holds, reservation_of_lem, failed_lem, reserved_lem,
}

module _ (txs : List TransactionEntry) (now : Time) where
  -- One engine comes from another by releases alone, each of a reservation in RESERVED that the engine
  -- holds for a listed transaction of its mandate that failed and succeeded nowhere in the list.
  pub data Releases : BudgetEngine → BudgetEngine → Type 0 where
    done : {e : BudgetEngine} → Releases e e
    next :
        (m : String) (tx : TransactionEntry) (r : BudgetReservation) {e e' : BudgetEngine}
        → HasFailedFor txs m tx
        → Holds e m tx r
        → Releases (release m r.reservation_id none now e).1 e'
        → Releases e e'

  Releases-trans : {e e' e'' : BudgetEngine} → Releases e e' → Releases e' e'' → Releases e e''
  Releases-trans done q = q
  Releases-trans (next m tx r f h p) q = next m tx r f h (Releases-trans p q)

  Releases-IsSound : {e e' : BudgetEngine} → Releases e e' → IsSound e → IsSound e'
  Releases-IsSound done s = s
  Releases-IsSound {e} (next m tx r f h p) s =
      Releases-IsSound p (Move-IsSound (release-Move m r.reservation_id none now e) s)

  -- what a part of the audit does to the engine
  unfoldable IsReleasing : Audit → Type 0
  IsReleasing x = (e : BudgetEngine) → Releases e (x e).1

  nothing-IsReleasing : (found : List OrphanedReservationRecord) → IsReleasing (pure found)
  unfolding IsReleasing
  nothing-IsReleasing found e = done

  then-IsReleasing :
      (x : Audit) (f : List OrphanedReservationRecord → Audit)
      → IsReleasing x
      → ((found : List OrphanedReservationRecord) → IsReleasing (f found))
      → IsReleasing (x >>= f)
  unfolding IsReleasing
  then-IsReleasing x f p q e = elim (Result-cases (x e).0) [
    | inl (found, h) ↦ rw h (Releases-trans (p e) (q found (x e).1))
    | inr (why, h) ↦ rw h (p e)
  ]

  orphan_lem :
      (m : String) (budget : DailyBudget) (tx : TransactionEntry)
      → Among tx txs
      → is_stranded txs m tx ≡ true
      → (e : BudgetEngine) (o : Option BudgetReservation)
      → reservation_of (get_or tx.transaction_id "") m e.reservations ≡ o
      → Releases e (release_orphan m budget (get_or tx.transaction_id "") now o e).1
  unfolding release_orphan
  orphan_lem m budget tx a s e none f = done
  orphan_lem m budget tx a s e (some r) f =
      let failed = failed_lem txs m tx a s in
      let (stored, transaction, mandate) = reservation_of_lem _ m r e.reservations f in
      elim (Bool-cases (is_reserved_state r.state)) [
        | inr other ↦ rw (other, release_orphan) done
        | inl held ↦
            let holds : Holds e m tx r = record {
              stored = stored;
              transaction = transaction;
              mandate = mandate;
              held = reserved_lem r.state held;
            } in
            rw (held, release_orphan)
              (elim (Result-cases (release m r.reservation_id none now e).0) [
                | inl (settled, h) ↦ rw h (next m tx r failed holds done)
                | inr (why, h) ↦ rw h (next m tx r failed holds done)
              ])
      ]

  entry-IsReleasing :
      (m : String) (budget : DailyBudget) (tx : TransactionEntry)
      → Among tx txs
      → IsReleasing (audit_entry txs m budget now tx)
  unfolding IsReleasing audit_entry
  entry-IsReleasing m budget tx a e = elim (Bool-cases (is_stranded txs m tx)) [
    | inr other ↦ rw (other, audit_entry) done
    | inl stranded ↦ rw (stranded, audit_entry) (orphan_lem m budget tx a stranded e _ refl)
  ]

  entries-IsReleasing :
      (m : String) (budget : DailyBudget) (rest : List TransactionEntry)
      → ((tx : TransactionEntry) → Among tx rest → Among tx txs)
      → IsReleasing (audit_entries txs m budget now rest)
  unfolding audit_entries
  entries-IsReleasing m budget [] among = nothing-IsReleasing []
  entries-IsReleasing m budget (tx ∷ rest) among =
      then-IsReleasing (audit_entry txs m budget now tx) _
        (entry-IsReleasing m budget tx (among tx (inl refl)))
        (λ found.
          then-IsReleasing (audit_entries txs m budget now rest) _
            (entries-IsReleasing m budget rest (λ t a. among t (inr a)))
            (λ more. nothing-IsReleasing _))

  reserving-IsReleasing :
      (b : Bool) (x : Audit) → IsReleasing x → IsReleasing (if b then x else pure [])
  reserving-IsReleasing true x p = p
  reserving-IsReleasing false x p = nothing-IsReleasing []

  mandates-IsReleasing : (budgets : Dict DailyBudget) → IsReleasing (audit_mandates txs now budgets)
  unfolding audit_mandates
  mandates-IsReleasing [] = nothing-IsReleasing []
  mandates-IsReleasing ((m, budget) ∷ budgets) =
      then-IsReleasing _ _
        (reserving-IsReleasing (ltb_ℤ (pos 0) budget.reserved_paise)
          (audit_entries txs m budget now txs) (entries-IsReleasing m budget txs (λ t a. a)))
        (λ found.
          then-IsReleasing (audit_mandates txs now budgets) _ (mandates-IsReleasing budgets)
            (λ more. nothing-IsReleasing _))

  -- The audit of budget reservations, whether or not it raises, is a sequence of releases: each is of
  -- a reservation in RESERVED that the engine stores for a listed transaction of the reservation's
  -- mandate which failed, was rolled back or was rejected, while no listed entry with its identifier
  -- succeeded or is completed. In an engine whose budgets are
  -- within their limits and whose reservations are of no negative amount, this stays so.
  pub audit_budget_reservations-Releases :
      (e : BudgetEngine)
      → IsSound e
      → Releases e (audit_budget_reservations txs now e).1
        × IsSound (audit_budget_reservations txs now e).1
  unfolding audit_budget_reservations IsReleasing
  audit_budget_reservations-Releases e sound =
      let releases = mandates-IsReleasing e.budgets e in (releases, Releases-IsSound releases sound)
