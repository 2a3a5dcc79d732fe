-- ===== src/Recovery/Evidence.antt =====
-- What the tests of the audit of budget reservations say of a transaction and a reservation.
use mandate_gateway.Base.{
  arith, String, ◌≡◌, ◌≢◌, str_eq, eq_iff, ◌&&◌, refl, ◌⊎◌, inl, inr, true, false, Option, none,
  some, List, [], ◌∷◌, Bool-cases, get_or,
}
use mandate_gateway.Dict.{Dict}
use mandate_gateway.Types.{BudgetState, TransactionState}
use mandate_gateway.Budget.{BudgetReservation, BudgetEngine}
use mandate_gateway.Recovery.{
  has_failed, is_text, is_successful_id, TransactionEntry, is_reserved_state, is_stranded,
  reservation_of,
}

-- the entry is one of these
abbrev pub Among : TransactionEntry → List TransactionEntry → Type 0
Among tx [] = ⊥
Among tx (t ∷ ts) = (tx ≡ t) ⊎ Among tx ts

-- the reservation is stored, under any identifier
abbrev pub Stores : BudgetReservation → Dict BudgetReservation → Type 0
Stores r [] = ⊥
Stores r ((id, q) ∷ d) = (r ≡ q) ⊎ Stores r d

-- The listed transaction belongs to the mandate and has failed, was rolled back or was rejected, and
-- no entry of the list with its identifier has succeeded or is completed.
pub record HasFailedFor (txs : List TransactionEntry) (m : String) (tx : TransactionEntry)
    : Type 0 where
  pub listed : Among tx txs
  pub mandate : tx.mandate_id ≡ some m
  pub ended :
      (tx.state ≡ some TransactionState.failure)
      ⊎ ((tx.state ≡ some TransactionState.rolled_back)
          ⊎ (tx.state ≡ some TransactionState.rejected))
  pub no_success :
      (t : TransactionEntry)
      → Among t txs
      → t.transaction_id ≡ some (get_or tx.transaction_id "")
      → (t.state ≢ some TransactionState.success) × (t.state ≢ some TransactionState.completed)

-- The engine holds the reservation for the transaction and the mandate.
pub record Holds (e : BudgetEngine) (m : String) (tx : TransactionEntry) (r : BudgetReservation)
    : Type 0 where
  pub stored : Stores r e.reservations
  pub transaction : r.transaction_id ≡ get_or tx.transaction_id ""
  pub mandate : r.mandate_id ≡ m
  pub held : r.state ≡ BudgetState.reserved

has_failed_cases :
    (s : Option TransactionState)
    → has_failed s ≡ true
    → (s ≡ some TransactionState.failure)
      ⊎ ((s ≡ some TransactionState.rolled_back) ⊎ (s ≡ some TransactionState.rejected))
has_failed_cases (some TransactionState.failure) h = inl refl
has_failed_cases (some TransactionState.rolled_back) h = inr (inl refl)
has_failed_cases (some TransactionState.rejected) h = inr (inr refl)
has_failed_cases (some TransactionState.draft) h = absurd (ground arith)
has_failed_cases (some TransactionState.proposed) h = absurd (ground arith)
has_failed_cases (some TransactionState.validating) h = absurd (ground arith)
has_failed_cases (some TransactionState.step_up_required) h = absurd (ground arith)
has_failed_cases (some TransactionState.user_approved) h = absurd (ground arith)
has_failed_cases (some TransactionState.reserved) h = absurd (ground arith)
has_failed_cases (some TransactionState.authorized) h = absurd (ground arith)
has_failed_cases (some TransactionState.executing) h = absurd (ground arith)
has_failed_cases (some TransactionState.success) h = absurd (ground arith)
has_failed_cases (some TransactionState.committed) h = absurd (ground arith)
has_failed_cases (some TransactionState.completed) h = absurd (ground arith)
has_failed_cases (some TransactionState.receipt) h = absurd (ground arith)
has_failed_cases (some TransactionState.expired) h = absurd (ground arith)
has_failed_cases (some TransactionState.consumed) h = absurd (ground arith)
has_failed_cases none h = absurd (ground arith)

not_listed_successful :
    (id : String) (txs : List TransactionEntry)
    → is_successful_id id txs ≡ false
    → (t : TransactionEntry) → Among t txs
    → t.transaction_id ≡ some id
    → (t.state ≢ some TransactionState.success) × (t.state ≢ some TransactionState.completed)
unfolding is_successful_id
not_listed_successful id [] h t listed named = absurd listed
not_listed_successful id (u ∷ txs) h t (inl same) named =
    let itself = eq_iff id id in
    let here : u.transaction_id ≡ some id = rw (← same) named in
    rw same (λ s. ground (arith, here, s, itself), λ s. ground (arith, here, s, itself))
not_listed_successful id (u ∷ txs) h t (inr later) named =
    not_listed_successful id txs (ground arith) t later named

pub reservation_of_lem :
    (id m : String) (r : BudgetReservation) (rs : Dict BudgetReservation)
    → reservation_of id m rs ≡ some r
    → Stores r rs × (r.transaction_id ≡ id) × (r.mandate_id ≡ m)
unfolding reservation_of
reservation_of_lem id m r [] h = absurd (ground arith)
reservation_of_lem id m r ((k, q) ∷ rs) h =
    let tx = eq_iff q.transaction_id id in
    let mandate = eq_iff q.mandate_id m in
    elim (Bool-cases (str_eq q.transaction_id id && str_eq q.mandate_id m)) [
      | inl found ↦
          let same : r ≡ q = ground arith in
          (inl same, rw same (ground (arith, tx)), rw same (ground (arith, mandate)))
      | inr other ↦
          let (stored, named, owner) = reservation_of_lem id m r rs (ground arith) in
          (inr stored, named, owner)
    ]

pub failed_lem :
    (txs : List TransactionEntry) (m : String) (tx : TransactionEntry)
    → Among tx txs
    → is_stranded txs m tx ≡ true
    → HasFailedFor txs m tx
unfolding is_stranded
failed_lem txs m tx listed h = record {
  listed = listed;
  mandate = of_mandate tx.mandate_id m (ground arith);
  ended = has_failed_cases tx.state (ground arith);
  no_success = not_listed_successful (get_or tx.transaction_id "") txs (ground arith);
}
  where
    of_mandate : (o : Option String) (m : String) → is_text o m ≡ true → o ≡ some m
    of_mandate none m h = absurd (ground arith)
    of_mandate (some s) m h = ground (arith, eq_iff s m)

pub reserved_lem : (s : BudgetState) → is_reserved_state s ≡ true → s ≡ BudgetState.reserved
reserved_lem s h = ground arith
