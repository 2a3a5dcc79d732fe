-- ===== src/Budget/Runs.antt =====
-- `BudgetEngine` under any sequence of calls, from any threads: each call holds the mandate's lock,
-- so the calls on a mandate come one after another.
use mandate_gateway.Base.{String, ◌≡◌, refl, ap, Option, some, List, [], ◌∷◌, arith, ok}
use mandate_gateway.Int.{ℤ, pos, ◌+ℤ◌, ◌≤ℤ◌, int_laws}
use mandate_gateway.Dict.{lookup, insert, lookup-insert_self}
use mandate_gateway.Dict.Values.{total-nil, All-insert, lookup-All}
use mandate_gateway.Clock.{Time}
use mandate_gateway.Types.{Currency}
use mandate_gateway.Budget.{DailyBudget, daily_budget, BudgetEngine}
use mandate_gateway.Budget.Engine.{new_engine, register_budget, reserve, commit, release}
use mandate_gateway.Budget.Moves.{Move, reserve-Move, commit-Move, release-Move}
use mandate_gateway.Budget.Accounting.{
  IsWithin, IsSound, Move-IsSound, amount_if, is_held, is_settled, held, settled, Tracks,
  Move-Tracks,
}

pub data Call : Type 0 where
  reserves : String → String → ℤ → Currency → Option String → ℤ → Option Time → String → Time → Call
  commits : String → String → Option Time → Time → Call
  releases : String → String → Option Time → Time → Call

unfoldable pub step : BudgetEngine → Call → BudgetEngine
step e (reserves m t amount c given ttl at uuid now) =
    (reserve m t amount c given ttl at uuid now e).1
step e (commits m id at now) = (commit m id at now e).1
step e (releases m id at now) = (release m id at now e).1

unfoldable pub run : BudgetEngine → List Call → BudgetEngine
run e [] = e
run e (call ∷ calls) = run (step e call) calls

-- Every call of `reserve`, `commit` or `release`, whatever its arguments and whether or not it raises,
-- is a move of the abstract ledger: nothing changes, or an amount is held, spent or freed.
pub step-Move : (e : BudgetEngine) (call : Call) → Move e (step e call)
unfolding step
step-Move e (reserves m t amount c given ttl at uuid now) =
    reserve-Move m t amount c given ttl at uuid now e
step-Move e (commits m id at now) = commit-Move m id at now e
step-Move e (releases m id at now) = release-Move m id at now e

run-IsSound : (e : BudgetEngine) (calls : List Call) → IsSound e → IsSound (run e calls)
unfolding run
run-IsSound e [] s = s
run-IsSound e (call ∷ calls) s = run-IsSound (step e call) calls (Move-IsSound (step-Move e call) s)

Tracks-trans :
    (m : String) (e e' e'' : BudgetEngine) (b b' b'' : DailyBudget)
    → Tracks m e e' b b'
    → Tracks m e' e'' b' b''
    → Tracks m e e'' b b''
Tracks-trans m e e' e'' b b' b'' s t = record {
  known = t.known;
  limit = omega (int_laws, s.limit, t.limit);
  reserved = omega (int_laws, s.reserved, t.reserved);
  spent = omega (int_laws, s.spent, t.spent);
}

-- Through any calls the counters of a budget move with the reservations that are held and settled.
pub run-Tracks :
    (e : BudgetEngine) (calls : List Call) (m : String) (b : DailyBudget)
    → lookup m e.budgets ≡ some b
    → (b' : DailyBudget) × Tracks m e (run e calls) b b'
unfolding run
run-Tracks e [] m b k = (b, record { known = k; limit = refl; reserved = refl; spent = refl })
run-Tracks e (call ∷ calls) m b k =
    let (c, t) = Move-Tracks m b (step-Move e call) k in
    let (d, u) = run-Tracks (step e call) calls m c t.known in
    (d, Tracks-trans m e (step e call) (run (step e call) calls) b c d t u)

-- A registration that does not raise stores a budget of the given amounts, within its limit.
module _ (m : String) (limit spent reserved : ℤ) (c : Currency) (date : Option String)
    (today : String) (now : Time) (e : BudgetEngine) {b : DailyBudget} {e' : BudgetEngine}
    (done : register_budget m limit c date spent reserved today now e ≡ (ok b, e')) where
  register_budget_state : e' ≡ record e { budgets = insert m b e.budgets }
  unfolding register_budget daily_budget
  register_budget_state = ground arith

  register_budget_amounts :
      (b.spent_paise ≡ spent) × (b.reserved_paise ≡ reserved) × (b.daily_limit_paise ≡ limit)
  unfolding register_budget daily_budget
  register_budget_amounts = (ground arith, ground arith, ground arith)

  register_budget-IsWithin : IsWithin b
  unfolding register_budget daily_budget
  register_budget-IsWithin = ground arith

  pub register_budget-IsSound : IsSound e → IsSound e'
  register_budget-IsSound s = rw register_budget_state (record {
    within = All-insert IsWithin m b e.budgets s.within register_budget-IsWithin;
    positive = s.positive;
  })

-- Registered in an empty engine with nothing reserved, a mandate is never overspent: whatever calls
-- of `reserve`, `commit` and `release` follow, what was spent before, what reservations have settled
-- and what they hold stay within the limit together.
pub run_never_overspends :
    (m : String) (limit spent : ℤ) (c : Currency) (date : Option String) (today : String)
    (now : Time) (calls : List Call) {b : DailyBudget} {e : BudgetEngine}
    → register_budget m limit c date spent (pos 0) today now new_engine ≡ (ok b, e)
    → spent +ℤ settled m (run e calls) +ℤ held m (run e calls) ≤ℤ limit
run_never_overspends m limit spent c date today now calls {b} {e} done =
    let state = register_budget_state m limit spent (pos 0) c date today now new_engine done in
    let known : lookup m e.budgets ≡ some b = rw (state, lookup-insert_self) refl in
    let sound =
      register_budget-IsSound m limit spent (pos 0) c date today now new_engine done
        (record { within = tt; positive = tt }) in
    let (b', t) = run-Tracks e calls m b known in
    let within = lookup-All IsWithin m b' _ (run-IsSound e calls sound).within t.known in
    omega (
      int_laws,
      register_budget_amounts m limit spent (pos 0) c date today now new_engine done,
      t,
      within,
      total-nil (amount_if is_held m) (ap (λ (x : BudgetEngine). x.reservations) state),
      total-nil (amount_if is_settled m) (ap (λ (x : BudgetEngine). x.reservations) state),
    )
