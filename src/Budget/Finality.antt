-- ===== src/Budget/Finality.antt =====
-- What `commit` and `release` do with a reservation that is settled, and with one that is held.
use mandate_gateway.Base.{
  String, ◌≡◌, Bool, true, false, Option, some, List, [], ◌∷◌, arith, eq_iff, err,
}
use mandate_gateway.Dict.{lookup, lookup-insert}
use mandate_gateway.Clock.{Time}
use mandate_gateway.Types.{BudgetState}
use mandate_gateway.Budget.{BudgetError, BudgetReservation, BudgetEngine}
use mandate_gateway.Budget.Engine.{commit, release}
use mandate_gateway.Budget.Moves.{Move, keep, hold, spend, free}
use mandate_gateway.Budget.Runs.{Call, step, run, step-Move}

-- Once settled, a reservation stays as it is.
abbrev is_final : BudgetState → Bool
is_final BudgetState.committed = true
is_final BudgetState.released = true
is_final _ = false

Move-final :
    {e e' : BudgetEngine} (id : String) (r : BudgetReservation)
    → Move e e'
    → lookup id e.reservations ≡ some r
    → is_final r.state ≡ true
    → lookup id e'.reservations ≡ some r
Move-final id r (keep p) k f = rw p k
Move-final {e} id r (hold n j c q now known fresh owner state pos_amount fits p) k f =
    rw (p, lookup-insert) (ground (arith, eq_iff id j))
Move-final {e} id r (spend n j c q now at known found owner state enough p) k f =
    rw (p, lookup-insert) (ground (arith, eq_iff id j))
Move-final {e} id r (free n j c q now at known found owner state enough p) k f =
    rw (p, lookup-insert) (ground (arith, eq_iff id j))

run_final :
    (e : BudgetEngine) (calls : List Call) (id : String) (r : BudgetReservation)
    → lookup id e.reservations ≡ some r
    → is_final r.state ≡ true
    → lookup id (run e calls).reservations ≡ some r
unfolding run
run_final e [] id r k f = k
run_final e (call ∷ calls) id r k f =
    run_final (step e call) calls id r (Move-final id r (step-Move e call) k f) f

-- The errors of `commit` and of `release` on a reservation that is committed or released.
abbrev commit_error : BudgetState → BudgetError
commit_error BudgetState.committed = BudgetError.double_commit
commit_error _ = BudgetError.commit_released

abbrev release_error : BudgetState → BudgetError
release_error BudgetState.committed = BudgetError.release_committed
release_error _ = BudgetError.double_release

-- Once a reservation is committed or released, then after any further calls its owner's `commit`
-- and `release` both raise, with the error for its state, and change nothing: no double spend.
pub settled_once :
    (e : BudgetEngine) (calls : List Call) (id : String) (r : BudgetReservation) (at : Option Time)
    (now : Time)
    → lookup id e.reservations ≡ some r
    → is_final r.state ≡ true
    → (commit r.mandate_id id at now (run e calls) ≡ (err (commit_error r.state), run e calls))
      × (release r.mandate_id id at now (run e calls) ≡ (err (release_error r.state), run e calls))
unfolding commit release
settled_once e calls id r at now k f =
    let later = run_final e calls id r k f in
    (
      ground (arith, eq_iff r.mandate_id r.mandate_id),
      ground (arith, eq_iff r.mandate_id r.mandate_id),
    )
