-- ===== src/Money.antt =====
-- apps/api/domain/money.py: amounts of one currency, within bounds. The tests of the types of the
-- fields are not modelled, nor are amounts of rupees that are floats.
pub mod Arithmetic
mod Tests
use mandate_gateway.Base.{Bool, not, ◌&&◌, if◌then◌else◌, Result, ok, err}
use mandate_gateway.Int.{ℤ, pos, ◌+ℤ◌, ◌-ℤ◌, ◌*ℤ◌, ltb_ℤ, leb_ℤ, eqb_ℤ}
use mandate_gateway.Types.{Currency, same_currency}

pub data MoneyError : Type 0 where
  negative above_maximum currency_mismatch : MoneyError

pub record Money : Type 0 where
  pub paise : ℤ
  pub currency : Currency

abbrev pub max_paise : ℤ
max_paise = pos 100_000_000

-- the constructor, with the checks of `__post_init__`
unfoldable pub money : ℤ → Currency → Result MoneyError Money
money paise currency =
    if ltb_ℤ paise (pos 0)
    then err MoneyError.negative
    else if ltb_ℤ max_paise paise
    then err MoneyError.above_maximum
    else ok (record { paise = paise; currency = currency })

-- for an int, which has no fractional paise
unfoldable pub of_rupees : ℤ → Currency → Result MoneyError Money
unfolding money
of_rupees rupees currency =
    if ltb_ℤ rupees (pos 0) then err MoneyError.negative else money (rupees *ℤ pos 100) currency

unfoldable pub zero_money : Currency → Result MoneyError Money
unfolding money
zero_money currency = money (pos 0) currency

-- `_assert_same_currency`, before a value
unfoldable pub with_same_currency : {A : Type 0} → Money → Money → A → Result MoneyError A
with_same_currency a b value =
    if not (same_currency a.currency b.currency) then err MoneyError.currency_mismatch else ok value

-- `a + b`
unfoldable pub add : Money → Money → Result MoneyError Money
unfolding money
add a b =
    if not (same_currency a.currency b.currency)
    then err MoneyError.currency_mismatch
    else money (a.paise +ℤ b.paise) a.currency

-- `a - b`
unfoldable pub sub : Money → Money → Result MoneyError Money
unfolding money
sub a b =
    if not (same_currency a.currency b.currency)
    then err MoneyError.currency_mismatch
    else if ltb_ℤ (a.paise -ℤ b.paise) (pos 0)
    then err MoneyError.negative
    else money (a.paise -ℤ b.paise) a.currency

-- `a <= b`, `a < b`, `a >= b`, `a > b`
unfoldable pub le : Money → Money → Result MoneyError Bool
unfolding with_same_currency
le a b = with_same_currency a b (leb_ℤ a.paise b.paise)

unfoldable pub lt : Money → Money → Result MoneyError Bool
unfolding with_same_currency
lt a b = with_same_currency a b (ltb_ℤ a.paise b.paise)

unfoldable pub ge : Money → Money → Result MoneyError Bool
unfolding with_same_currency
ge a b = with_same_currency a b (leb_ℤ b.paise a.paise)

unfoldable pub gt : Money → Money → Result MoneyError Bool
unfolding with_same_currency
gt a b = with_same_currency a b (ltb_ℤ b.paise a.paise)

-- `a == b`, which does not raise
unfoldable pub eq : Money → Money → Bool
eq a b = eqb_ℤ a.paise b.paise && same_currency a.currency b.currency
