-- ===== src/Money/Tests.antt =====
-- Amounts at concrete inputs.
use mandate_gateway.Base.{◌≡◌, ◌↔◌, ok, arith}
use mandate_gateway.Int.{ℤ, pos, ◌+ℤ◌, ◌≤ℤ◌}
use mandate_gateway.Types.{Currency}
use mandate_gateway.Money.{Money, max_paise, add}
use mandate_gateway.Money.Arithmetic.{add_iff}

abbrev rupees : ℤ → Money
rupees n = record { paise = n; currency = Currency.inr }

add_iff_example : (add (rupees (pos 300)) (rupees (pos 200)) ≡ ok (rupees (pos 500))) ↔ (
    (◌≡◌ {A = Currency} Currency.inr Currency.inr)
    × (pos 300 +ℤ pos 200 ≤ℤ max_paise)
    × (rupees (pos 500) ≡ rupees (pos 300 +ℤ pos 200)))
add_iff_example =
    add_iff (rupees (pos 300)) (rupees (pos 200)) (rupees (pos 500)) (omega arith, omega arith)
      (omega arith, omega arith)
