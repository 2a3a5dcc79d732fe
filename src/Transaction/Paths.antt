-- ===== src/Transaction/Paths.antt =====
-- The transition diagram: what can come after what.
use mandate_gateway.Base.{
  ℕ, ◌<◌, ◌≡◌, refl, ◌↔◌, ◌⊎◌, inl, inr, Bool, true, false, ap, arith, Bool-cases,
}
use mathlib.Core.Path.{subst}
use mandate_gateway.Types.{TransactionState, can_transition_to, is_terminal_state}

-- A sequence of transitions that `can_transition_to` accepts.
infix 40 ◌⟶*◌
pub data ◌⟶*◌ (s : TransactionState) : TransactionState → Type 0 where
  here : s ⟶* s
  next : {t u : TransactionState} → s ⟶* t → can_transition_to t u ≡ true → s ⟶* u

-- The states from which money can still move: a path into EXECUTING leads through these only.
abbrev pub may_execute : TransactionState → Bool
may_execute TransactionState.draft = true
may_execute TransactionState.proposed = true
may_execute TransactionState.validating = true
may_execute TransactionState.step_up_required = true
may_execute TransactionState.user_approved = true
may_execute TransactionState.reserved = true
may_execute TransactionState.authorized = true
may_execute TransactionState.executing = true
may_execute _ = false

-- A rank that every transition raises: the diagram has no cycle.
abbrev pub rank : TransactionState → ℕ
rank TransactionState.draft = 0
rank TransactionState.proposed = 1
rank TransactionState.validating = 2
rank TransactionState.step_up_required = 3
rank TransactionState.user_approved = 4
rank TransactionState.reserved = 5
rank TransactionState.authorized = 6
rank TransactionState.executing = 7
rank TransactionState.success = 8
rank TransactionState.failure = 8
rank TransactionState.committed = 9
rank TransactionState.rolled_back = 9
rank TransactionState.completed = 10
rank TransactionState.receipt = 11
rank TransactionState.rejected = 11
rank TransactionState.expired = 11
rank TransactionState.consumed = 11

step_rank : (s t : TransactionState) → can_transition_to s t ≡ true → rank s < rank t
unfolding can_transition_to
step_rank s t h = ground arith

step_may_execute :
    (s t : TransactionState)
    → can_transition_to s t ≡ true
    → may_execute t ≡ true
    → may_execute s ≡ true
unfolding can_transition_to
step_may_execute s t h m = ground arith

path_rank : {s t : TransactionState} → s ⟶* t → (s ≡ t) ⊎ (rank s < rank t)
path_rank here = inl refl
path_rank {s} (next {t} {u} p h) = elim (path_rank p) [
  | inl same ↦ inr (rw same (step_rank t u h))
  | inr lower ↦ inr (omega (arith, step_rank t u h))
]

path_may_execute : {s t : TransactionState} → s ⟶* t → may_execute t ≡ true → may_execute s ≡ true
path_may_execute here m = m
path_may_execute (next {t} {u} p h) m = path_may_execute p (step_may_execute t u h m)

-- No sequence of transitions leads from REJECTED, EXPIRED, CONSUMED, COMPLETED, or any other state
-- past execution, into EXECUTING; nor from ROLLED_BACK to COMMITTED or back; nor from any state to
-- itself.
pub forbidden_paths :
    ((s : TransactionState) → may_execute s ≡ false → ¬ (s ⟶* TransactionState.executing))
    × (¬ (TransactionState.rolled_back ⟶* TransactionState.committed))
    × (¬ (TransactionState.committed ⟶* TransactionState.rolled_back))
    × ((s t : TransactionState) → s ⟶* t → can_transition_to t s ≡ false)
forbidden_paths = (
  λ s m p. cc (m, path_may_execute p refl),
  λ p. elim (path_rank p) [ inl e ↦ ground arith | inr l ↦ omega arith ],
  λ p. elim (path_rank p) [ inl e ↦ ground arith | inr l ↦ omega arith ],
  λ s t p. elim (Bool-cases (can_transition_to t s)) [
    | inr no_edge ↦ no_edge
    | inl edge ↦ absurd (no_cycle s t p edge)
  ],
)
  where
    no_cycle : (s t : TransactionState) → s ⟶* t → can_transition_to t s ≡ true → ⊥
    no_cycle s t p edge = elim (path_rank p) [
      | inl e ↦ omega (arith, step_rank t s edge, ap rank e)
      | inr l ↦ omega (arith, step_rank t s edge)
    ]

-- the states before a reservation is made
abbrev pub is_unreserved : TransactionState → Bool
is_unreserved TransactionState.draft = true
is_unreserved TransactionState.proposed = true
is_unreserved TransactionState.validating = true
is_unreserved TransactionState.step_up_required = true
is_unreserved TransactionState.user_approved = true
is_unreserved _ = false

before_executing :
    (t u : TransactionState)
    → can_transition_to t u ≡ true
    → ((u ≡ TransactionState.executing) → t ≡ TransactionState.authorized)
      × ((u ≡ TransactionState.authorized) → t ≡ TransactionState.reserved)
unfolding can_transition_to
before_executing t u h = (λ e. ground arith, λ e. ground arith)

last_step :
    {s u : TransactionState}
    → s ⟶* u
    → (s ≡ u) ⊎ ((t : TransactionState) × (s ⟶* t) × (can_transition_to t u ≡ true))
last_step here = inl refl
last_step (next {t} {u} p h) = inr (t, p, h)

-- A path from before the reservation into EXECUTING passes through RESERVED, then AUTHORIZED.
pub executing_is_authorized :
    (s : TransactionState)
    → is_unreserved s ≡ true
    → s ⟶* TransactionState.executing
    → (s ⟶* TransactionState.reserved) × (s ⟶* TransactionState.authorized)
executing_is_authorized s early p = elim (last_step p) [
  | inl e ↦ absurd (ground arith)
  | inr (t, q, h) ↦
      let q' = subst (λ x. s ⟶* x) ((before_executing t _ h).0 refl) q in
      elim (last_step q') [
        | inl e ↦ absurd (ground arith)
        | inr (u, r, k) ↦ (subst (λ x. s ⟶* x) ((before_executing u _ k).1 refl) r, q')
      ]
]

-- A state that `is_terminal` accepts has a legal next state exactly if it is COMPLETED, and then
-- only RECEIPT; CONSUMED has none and is not accepted.
terminal_states :
    ((s t : TransactionState)
      → is_terminal_state s ≡ true
      → (can_transition_to s t ≡ true)
        ↔ ((s ≡ TransactionState.completed) × (t ≡ TransactionState.receipt)))
    × ((t : TransactionState) → can_transition_to TransactionState.consumed t ≡ false)
    × (is_terminal_state TransactionState.consumed ≡ false)
unfolding can_transition_to is_terminal_state
terminal_states = (λ s t h. (λ e. (ground arith, ground arith), λ e. ground arith), λ t. refl, refl)
