-- ===== src/Budget/Accounting.antt =====
-- The invariants of the abstract ledger of Budget/Moves: the limits of the budgets, and how their
-- counters follow the reservations.
use mandate_gateway.Base.{
  String, ◌≡◌, refl, ◌≢◌, inl, inr, Bool, true, false, ◌&&◌, some, arith, str_eq, ap, sym, ◌∙◌,
  eq_iff, if◌then◌else◌, Bool-cases,
}
use mandate_gateway.Int.{ℤ, pos, ◌+ℤ◌, ◌≤ℤ◌, int_laws}
use mandate_gateway.Dict.{lookup, insert, lookup-insert}
use mandate_gateway.Dict.Values.{All, All-insert, lookup-All, total, total-insert, total-insert_new}
use mandate_gateway.Types.{BudgetState}
use mandate_gateway.Budget.{DailyBudget, BudgetReservation, BudgetEngine}
use mandate_gateway.Budget.Moves.{Move, keep, hold, spend, free, with_both}

-- The invariant of `DailyBudget`.
pub record IsWithin (b : DailyBudget) : Type 0 where
  pub spent_nonneg : pos 0 ≤ℤ b.spent_paise
  pub reserved_nonneg : pos 0 ≤ℤ b.reserved_paise
  pub limited : b.spent_paise +ℤ b.reserved_paise ≤ℤ b.daily_limit_paise

abbrev pub IsPositive : BudgetReservation → Type 0
IsPositive r = pos 0 ≤ℤ r.amount_paise

pub record IsSound (e : BudgetEngine) : Type 0 where
  pub within : All IsWithin e.budgets
  pub positive : All IsPositive e.reservations

pub Move-IsSound : {e e' : BudgetEngine} → Move e e' → IsSound e → IsSound e'
Move-IsSound (keep p) s = rw p s
Move-IsSound {e} (hold m id b r now known fresh owner held pos_amount fits p) s =
    let w = lookup-All IsWithin m b e.budgets s.within known in
    rw p (record {
      within = All-insert IsWithin m _ e.budgets s.within (omega int_laws);
      positive = All-insert IsPositive id r e.reservations s.positive (omega int_laws);
    })
Move-IsSound {e} (spend m id b r now at known found owner held enough p) s =
    let w = lookup-All IsWithin m b e.budgets s.within known in
    let q = lookup-All IsPositive id r e.reservations s.positive found in
    rw p (record {
      within = All-insert IsWithin m _ e.budgets s.within (omega int_laws);
      positive = All-insert IsPositive id _ e.reservations s.positive q;
    })
Move-IsSound {e} (free m id b r now at known found owner held enough p) s =
    let w = lookup-All IsWithin m b e.budgets s.within known in
    let q = lookup-All IsPositive id r e.reservations s.positive found in
    rw p (record {
      within = All-insert IsWithin m _ e.budgets s.within (omega int_laws);
      positive = All-insert IsPositive id _ e.reservations s.positive q;
    })

abbrev pub is_held : BudgetState → Bool
is_held BudgetState.reserved = true
is_held BudgetState.expired = true
is_held _ = false

abbrev pub is_settled : BudgetState → Bool
is_settled BudgetState.committed = true
is_settled _ = false

-- The amount of a reservation of mandate `m` in a state of the given kind, and 0 of another.
unfoldable pub amount_if : (BudgetState → Bool) → String → BudgetReservation → ℤ
amount_if kind m r = if str_eq r.mandate_id m && kind r.state then r.amount_paise else pos 0

module _ (kind : BudgetState → Bool) (m : String) (r : BudgetReservation) where
  pub amount_if_in : r.mandate_id ≡ m → kind r.state ≡ true → amount_if kind m r ≡ r.amount_paise
  unfolding amount_if
  amount_if_in p q = ground (arith, eq_iff r.mandate_id m)

  amount_if_out : kind r.state ≡ false → amount_if kind m r ≡ pos 0
  unfolding amount_if
  amount_if_out q = ground arith

  amount_if_other : r.mandate_id ≢ m → amount_if kind m r ≡ pos 0
  unfolding amount_if
  amount_if_other p = ground (arith, eq_iff r.mandate_id m)

pub amount_if_nonneg :
    (kind : BudgetState → Bool) (m : String) (r : BudgetReservation)
    → IsPositive r
    → pos 0 ≤ℤ amount_if kind m r
unfolding amount_if
amount_if_nonneg kind m r h = ground arith

-- What reservations hold, and what they have spent, of the money of mandate `m`.
abbrev pub held : String → BudgetEngine → ℤ
held m e = total (amount_if is_held m) e.reservations

abbrev pub settled : String → BudgetEngine → ℤ
settled m e = total (amount_if is_settled m) e.reservations

-- From `b` in `e` to `b'` in `e'` the two counters moved with the two sums.
pub record Tracks (m : String) (e e' : BudgetEngine) (b b' : DailyBudget) : Type 0 where
  pub known : lookup m e'.budgets ≡ some b'
  pub limit : b'.daily_limit_paise ≡ b.daily_limit_paise
  pub reserved : b'.reserved_paise +ℤ held m e ≡ b.reserved_paise +ℤ held m e'
  pub spent : b'.spent_paise +ℤ settled m e ≡ b.spent_paise +ℤ settled m e'

-- After one entry of each dict is written, the counters of `m` track its sums, if those of the
-- mandate `n` that is written do and the sums of another mandate stay.
module _ (e : BudgetEngine) (m n id : String) (b c c' : DailyBudget) (r : BudgetReservation)
    (k : lookup m e.budgets ≡ some b) (known : lookup n e.budgets ≡ some c) where
  with_both-Tracks :
      c'.daily_limit_paise ≡ c.daily_limit_paise
      → (n ≡ m → c'.reserved_paise +ℤ held m e ≡ c.reserved_paise +ℤ held m (with_both e n c' id r))
      → (n ≡ m → c'.spent_paise +ℤ settled m e ≡ c.spent_paise +ℤ settled m (with_both e n c' id r))
      → (n ≢ m → held m e ≡ held m (with_both e n c' id r))
      → (n ≢ m → settled m e ≡ settled m (with_both e n c' id r))
      → (b' : DailyBudget) × Tracks m e (with_both e n c' id r) b b'
  with_both-Tracks l hr hs or os = elim (Bool-cases (str_eq n m)) [
    | inl same ↦
        let q = (eq_iff n m).0 same in
        (
          c',
          record {
            known = ground (arith, lookup-insert n m c' e.budgets, eq_iff m n, q);
            limit = ground (arith, q);
            reserved = ground (arith, hr q);
            spent = ground (arith, hs q);
          },
        )
    | inr other ↦
        let q : n ≢ m = λ p. cc (other, (eq_iff n m).1 p) in
        (
          b,
          record {
            known = ground (arith, lookup-insert n m c' e.budgets, eq_iff m n);
            limit = refl;
            reserved = cc (or q);
            spent = cc (os q);
          },
        )
  ]

-- The last argument of each case of `Move-Tracks`: how the two sums change with one reservation.
module _ (e : BudgetEngine) (m n id : String) (b c c' : DailyBudget) (r r' : BudgetReservation)
    (k : lookup m e.budgets ≡ some b) (known : lookup n e.budgets ≡ some c)
    (found : lookup id e.reservations ≡ some r) (owner : r.mandate_id ≡ n)
    (same_owner : r'.mandate_id ≡ r.mandate_id)
    (limit : c'.daily_limit_paise ≡ c.daily_limit_paise) where
  abbrev Delta : (BudgetState → Bool) → ℤ → ℤ → Type 0
  Delta kind x' x = x' +ℤ amount_if kind n r ≡ x +ℤ amount_if kind n r'

  settle-Tracks :
      Delta is_held c'.reserved_paise c.reserved_paise
      → Delta is_settled c'.spent_paise c.spent_paise
      → (b' : DailyBudget) × Tracks m e (with_both e n c' id r') b b'
  settle-Tracks dh ds =
      with_both-Tracks e m n id b c c' r' k known limit (λ q. rw q at (mine is_held _ _ dh))
        (λ q. rw q at (mine is_settled _ _ ds)) (other is_held) (other is_settled)
    where
      mine :
          (kind : BudgetState → Bool) (x' x : ℤ)
          → Delta kind x' x
          → x' +ℤ total (amount_if kind n) e.reservations
            ≡ x +ℤ total (amount_if kind n) (insert id r' e.reservations)
      mine kind x' x d =
          omega (int_laws, d, total-insert (amount_if kind n) id r' r e.reservations found)

      other :
          (kind : BudgetState → Bool)
          → n ≢ m
          → total (amount_if kind m) e.reservations
            ≡ total (amount_if kind m) (insert id r' e.reservations)
      other kind q = omega (
        int_laws,
        total-insert (amount_if kind m) id r' r e.reservations found,
        amount_if_other kind m r (λ p. q (sym owner ∙ p)),
        amount_if_other kind m r' (λ p. q (sym owner ∙ sym same_owner ∙ p)),
      )

-- Every move of the ledger keeps the counters of every mandate in step with its reservations.
pub Move-Tracks :
    {e e' : BudgetEngine} (m : String) (b : DailyBudget)
    → Move e e'
    → lookup m e.budgets ≡ some b
    → (b' : DailyBudget) × Tracks m e e' b b'
Move-Tracks m b (keep p) k =
    (b, rw p (record { known = k; limit = refl; reserved = refl; spent = refl }))
Move-Tracks {e} m b (hold n id c r now known fresh owner state pos_amount fits p) k =
    let h = total-insert_new (amount_if is_held m) id r e.reservations fresh in
    let s = total-insert_new (amount_if is_settled m) id r e.reservations fresh in
    let z = amount_if_out is_settled m r (ap is_settled state) in
    rw p (
      with_both-Tracks e m n id b c _ r k known refl
        (λ q. omega (int_laws, h, amount_if_in is_held m r (owner ∙ q) (ap is_held state)))
        (λ q. omega (int_laws, s, z))
        (λ q. omega (int_laws, h, amount_if_other is_held m r (λ t. q (sym owner ∙ t))))
        (λ q. omega (int_laws, s, z)))
Move-Tracks {e} m b (spend n id c r now at known found owner state enough p) k =
    let r' = record r { state = BudgetState.committed; updated_at = at } in
    rw p (
      settle-Tracks e m n id b c _ r r' k known found owner refl refl
        (omega (
          int_laws,
          amount_if_in is_held n r owner (ap is_held state),
          amount_if_out is_held n r' refl,
        ))
        (omega (
          int_laws,
          amount_if_out is_settled n r (ap is_settled state),
          amount_if_in is_settled n r' owner refl,
        )))
Move-Tracks {e} m b (free n id c r now at known found owner state enough p) k =
    let r' = record r { state = BudgetState.released; updated_at = at } in
    let held_before : is_held r.state ≡ true = ground arith in
    let unspent : is_settled r.state ≡ false = ground arith in
    rw p (
      settle-Tracks e m n id b c _ r r' k known found owner refl refl
        (omega
          (int_laws, amount_if_in is_held n r owner held_before, amount_if_out is_held n r' refl))
        (omega
          (int_laws, amount_if_out is_settled n r unspent, amount_if_out is_settled n r' refl)))
