-- ===== src/Transaction/Consistency.antt =====
-- What `transition_transaction` keeps of the record.
use mandate_gateway.Base.{◌≡◌, ◌↔◌, refl, true, false, arith, is_some, get_or, ok}
use mandate_gateway.Int.{pos, ◌≤ℤ◌}
use mandate_gateway.Clock.{Time}
use mandate_gateway.Types.{TransactionState, can_transition_to}
use mandate_gateway.Transaction.{
  Transaction, Updates, transaction, is_rejected, transition_transaction, updated, out_of_bounds,
}

valid_parts :
    (t : Transaction)
    → (transaction t ≡ ok t)
      ↔ ((out_of_bounds t ≡ false) × (is_rejected t.state ≡ is_some t.rejection_reason))
unfolding transaction
valid_parts t = (λ h. (ground arith, ground arith), λ h. ground arith)

source_not_rejected :
    (s t : TransactionState) → can_transition_to s t ≡ true → is_rejected s ≡ false
unfolding can_transition_to
source_not_rejected s t h = ground arith

module _ (t : Transaction) (s : TransactionState) (u : Updates) (now : Time) where
  transition_ok :
      {t' : Transaction}
      → transition_transaction t s u now ≡ ok t'
      → (updated t s u now ≡ t')
        × (can_transition_to t.state s ≡ true)
        × (is_rejected s ≡ is_some u.rejection_reason)
  unfolding transition_transaction
  transition_ok done = (ground arith, ground arith, ground arith)

  updated_in_bounds :
      out_of_bounds t ≡ false
      → pos 0 ≤ℤ get_or u.amount_paise (pos 0)
      → out_of_bounds (updated t s u now) ≡ false
  unfolding out_of_bounds updated
  updated_in_bounds b n = ground arith

  updated_reason :
      is_rejected t.state ≡ is_some t.rejection_reason
      → is_rejected t.state ≡ false
      → is_rejected s ≡ is_some u.rejection_reason
      → is_rejected (updated t s u now).state ≡ is_some (updated t s u now).rejection_reason
  unfolding updated
  updated_reason r n h = ground arith

-- A transition from a transaction that its constructor accepts, with no negative new amount, gives
-- one that the constructor would accept too (`model_copy` does not check), in the new state, with
-- the same identifiers of the transaction, the mandate, the merchant and the buyer.
pub transition_keeps_valid :
    (t : Transaction) (s : TransactionState) (u : Updates) (now : Time) {t' : Transaction}
    → transaction t ≡ ok t
    → pos 0 ≤ℤ get_or u.amount_paise (pos 0)
    → transition_transaction t s u now ≡ ok t'
    → (transaction t' ≡ ok t')
      × (t'.state ≡ s)
      × (t'.transaction_id ≡ t.transaction_id)
      × (t'.mandate_id ≡ t.mandate_id)
      × (t'.merchant_id ≡ t.merchant_id)
      × (t'.buyer_id ≡ t.buyer_id)
unfolding updated
transition_keeps_valid t s u now valid nonneg done =
    let (bounds, reason) = (valid_parts t).0 valid in
    let (same, legal, given) = transition_ok t s u now done in
    let source = source_not_rejected t.state s legal in
    rw (← same) (
      (valid_parts (updated t s u now)).1
          (updated_in_bounds t s u now bounds nonneg, updated_reason t s u now reason source given),
      refl,
      refl,
      refl,
      refl,
      refl,
    )
