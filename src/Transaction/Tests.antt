-- ===== src/Transaction/Tests.antt =====
-- Transactions at concrete inputs.
use mandate_gateway.Base.{◌≡◌, refl, none, some, arith, ok}
use mandate_gateway.Int.{pos}
use mandate_gateway.Types.{Currency, TransactionState, RejectionReason, can_transition_to}
use mandate_gateway.Transaction.{
  Transaction, Updates, no_updates, transaction, transition_transaction, updated, out_of_bounds,
}
use mandate_gateway.Transaction.Paths.{◌⟶*◌, here, next}
use mandate_gateway.Transaction.Consistency.{transition_keeps_valid}

abbrev checking : Transaction
checking = record {
  transaction_id = "tx";
  buyer_id = "buyer";
  merchant_id = "merchant";
  mandate_id = "mandate";
  mandate_version = pos 1;
  policy_version = pos 1;
  cart_id = none;
  cart_hash = none;
  amount_paise = pos 400;
  currency = Currency.inr;
  state = TransactionState.validating;
  rejection_reason = none;
  idempotency_key = "key";
  nonce = none;
  created_at = pos 1;
  updated_at = pos 1;
  step_up_required_at = none;
  step_up_approved_at = none;
  step_up_amount_paise = none;
  razorpay_order_id = none;
  razorpay_payment_id = none;
}

abbrev refusing : Updates
refusing = record no_updates { rejection_reason = some RejectionReason.budget_exceeded }

transition_keeps_valid_example :
    let t = updated checking TransactionState.rejected refusing (pos 2) in
    (transaction t ≡ ok t)
    × (t.state ≡ TransactionState.rejected)
    × (t.transaction_id ≡ "tx")
    × (t.mandate_id ≡ "mandate")
    × (t.merchant_id ≡ "merchant")
    × (t.buyer_id ≡ "buyer")
unfolding transaction transition_transaction out_of_bounds
transition_keeps_valid_example =
    transition_keeps_valid checking TransactionState.rejected refusing (pos 2) refl (ground arith)
      refl

abbrev path : TransactionState.proposed ⟶* TransactionState.executing
unfolding can_transition_to
path =
    next {t = TransactionState.authorized}
      (next {t = TransactionState.reserved}
        (next {t = TransactionState.validating} (next {t = TransactionState.proposed} here refl)
          refl)
        refl)
      refl
