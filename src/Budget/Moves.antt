-- ===== src/Budget/Moves.antt =====
-- The abstract ledger that `BudgetEngine` implements: what a call may do to the two dicts.
use mandate_gateway.Base.{
  String, ◌≡◌, refl, ◌⊎◌, inl, inr, Option, none, some, arith, ◌||◌, Bool-cases, false, str_eq,
  refl, eq_iff, Option-cases, Result-cases,
}
use mandate_gateway.Int.{ℤ, pos, ◌+ℤ◌, ◌-ℤ◌, ◌≤ℤ◌, ◌<ℤ◌, ltb_ℤ, leb_ℤ}
use mandate_gateway.Text.{is_empty}
use mandate_gateway.Dict.{lookup, insert}
use mandate_gateway.Clock.{Time, time_or_now}
use mandate_gateway.Types.{Currency, same_currency, BudgetState}
use mandate_gateway.Budget.{
  DailyBudget, BudgetReservation, budget_reservation, reserve_budget, commit_reservation,
  release_reservation, BudgetEngine,
}
use mandate_gateway.Budget.Engine.{
  reserve, reserve_in, store_reservation, commit, committable, release, releasable, id_or_new,
  new_reservation,
}

abbrev pub with_both :
    BudgetEngine → String → DailyBudget → String → BudgetReservation → BudgetEngine
with_both e m b id r = record {
  budgets = insert m b e.budgets;
  reservations = insert id r e.reservations;
}

-- Nothing; a fresh reservation within the limit; or a held one that is spent or given back.
pub data Move (e : BudgetEngine) (e' : BudgetEngine) : Type 0 where
  keep : e' ≡ e → Move e e'
  hold :
      (m id : String) (b : DailyBudget) (r : BudgetReservation) (now : Time)
      → lookup m e.budgets ≡ some b
      → lookup id e.reservations ≡ none
      → r.mandate_id ≡ m
      → r.state ≡ BudgetState.reserved
      → pos 0 <ℤ r.amount_paise
      → b.spent_paise +ℤ b.reserved_paise +ℤ r.amount_paise ≤ℤ b.daily_limit_paise
      → e'
        ≡ with_both e m
            (record b { reserved_paise = b.reserved_paise +ℤ r.amount_paise; updated_at = now })
            id
            r
      → Move e e'
  spend :
      (m id : String) (b : DailyBudget) (r : BudgetReservation) (now at : Time)
      → lookup m e.budgets ≡ some b
      → lookup id e.reservations ≡ some r
      → r.mandate_id ≡ m
      → r.state ≡ BudgetState.reserved
      → r.amount_paise ≤ℤ b.reserved_paise
      → e'
        ≡ with_both e m
            (record b {
              reserved_paise = b.reserved_paise -ℤ r.amount_paise;
              spent_paise = b.spent_paise +ℤ r.amount_paise;
              updated_at = now;
            })
            id
            (record r { state = BudgetState.committed; updated_at = at })
      → Move e e'
  free :
      (m id : String) (b : DailyBudget) (r : BudgetReservation) (now at : Time)
      → lookup m e.budgets ≡ some b
      → lookup id e.reservations ≡ some r
      → r.mandate_id ≡ m
      → (r.state ≡ BudgetState.reserved) ⊎ (r.state ≡ BudgetState.expired)
      → r.amount_paise ≤ℤ b.reserved_paise
      → e'
        ≡ with_both e m
            (record b { reserved_paise = b.reserved_paise -ℤ r.amount_paise; updated_at = now })
            id
            (record r { state = BudgetState.released; updated_at = at })
      → Move e e'

module _ (m id : String) (at : Option Time) (now : Time) (e : BudgetEngine) where
  pub commit-Move : Move e (commit m id at now e).1
  unfolding commit commit_reservation
  commit-Move = elim (Option-cases (lookup id e.reservations)) [
    | inl missing ↦ keep (ground arith)
    | inr (r, found) ↦ elim (Bool-cases (str_eq r.mandate_id m)) [
      | inr other ↦ keep (ground arith)
      | inl owner ↦ elim (Result-cases (committable r.state)) [
        | inr (x, bad) ↦ keep (ground arith)
        | inl (u, good) ↦ elim (Option-cases (lookup m e.budgets)) [
          | inl no_budget ↦ keep (ground arith)
          | inr (b, known) ↦ elim (Bool-cases (ltb_ℤ b.reserved_paise r.amount_paise)) [
            | inl short ↦ keep (ground arith)
            | inr enough ↦
                spend m id b r now (time_or_now at now) known found
                  ((eq_iff r.mandate_id m).0 owner) (ground arith) (ground arith) (ground arith)
          ]
        ]
      ]
    ]
  ]

  pub release-Move : Move e (release m id at now e).1
  unfolding release release_reservation
  release-Move = elim (Option-cases (lookup id e.reservations)) [
    | inl missing ↦ keep (ground arith)
    | inr (r, found) ↦ elim (Bool-cases (str_eq r.mandate_id m)) [
      | inr other ↦ keep (ground arith)
      | inl owner ↦ elim (Result-cases (releasable r.state)) [
        | inr (x, bad) ↦ keep (ground arith)
        | inl (u, good) ↦ elim (Option-cases (lookup m e.budgets)) [
          | inl no_budget ↦ keep (ground arith)
          | inr (b, known) ↦ elim (Bool-cases (ltb_ℤ b.reserved_paise r.amount_paise)) [
            | inl short ↦ keep (ground arith)
            | inr enough ↦
                free m id b r now (time_or_now at now) known found ((eq_iff r.mandate_id m).0 owner)
                  (ground arith) (ground arith) (ground arith)
          ]
        ]
      ]
    ]
  ]

module _ (m t : String) (amount : ℤ) (c : Currency) (given : Option String) (ttl : ℤ)
    (at : Option Time) (uuid : String) (now : Time) (e : BudgetEngine) where
  reserve_in-Move :
      (b : DailyBudget) (id : String) (eval_time : Time)
      → lookup m e.budgets ≡ some b
      → leb_ℤ amount (pos 0) ≡ false
      → Move e (reserve_in b m t amount c id ttl eval_time now e).1
  unfolding reserve_in store_reservation reserve_budget budget_reservation
  reserve_in-Move b id eval_time known positive = elim (Bool-cases (same_currency b.currency c)) [
    | inr other ↦ keep (ground arith)
    | inl same ↦ elim (Option-cases (lookup id e.reservations)) [
      | inr (r, taken) ↦ keep (ground arith)
      | inl fresh ↦
          elim (Bool-cases
            (ltb_ℤ b.daily_limit_paise (b.spent_paise +ℤ b.reserved_paise +ℤ amount))) [
              | inl over ↦ keep (ground arith)
              | inr within ↦ elim (Bool-cases (is_empty t || is_empty m)) [
                | inl unnamed ↦ keep (ground arith)
                | inr named ↦
                    hold m id b (new_reservation m t amount c id ttl eval_time) now known fresh refl
                      refl (ground arith) (ground arith) (ground arith)
              ]
            ]
    ]
  ]

  pub reserve-Move : Move e (reserve m t amount c given ttl at uuid now e).1
  unfolding reserve
  reserve-Move = elim (Bool-cases (leb_ℤ amount (pos 0))) [
    | inl nothing ↦ keep (ground arith)
    | inr positive ↦ elim (Option-cases (lookup m e.budgets)) [
      | inl unknown ↦ keep (ground arith)
      | inr (b, known) ↦
          rw (positive, known, reserve)
            (reserve_in-Move b (id_or_new given uuid) (time_or_now at now) known positive)
    ]
  ]
