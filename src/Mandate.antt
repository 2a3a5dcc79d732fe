-- ===== src/Mandate.antt =====
-- apps/api/domain/mandate.py: the mandate and what it authorizes. A frozen set is the list of its
-- members. `lower` is the one of Text. Message texts are not modelled.
pub mod Lifecycle
pub mod Evaluator
pub mod Scope
pub mod Trace
mod Tests
use mandate_gateway.Base.{
  String, Bool, true, false, ◌&&◌, ◌||◌, Option, List, [], ◌∷◌, map, str_eq, if◌then◌else◌, Result,
  ok, err,
}
use mandate_gateway.Int.{ℤ, pos, ltb_ℤ, leb_ℤ}
use mandate_gateway.Text.{strip, lower, is_empty}
use mandate_gateway.Clock.{Time, time_or_now}
use mandate_gateway.Types.{Currency, Region, same_region, MandateStatus}

pub data MandateError : Type 0 where
  validation expiry_order budget_order illegal_transition : MandateError

pub record BuyerMandate : Type 0 where
  pub mandate_id : String
  pub buyer_id : String
  pub version : ℤ
  pub merchant_scope : List String
  pub category_scope : List String
  pub allowed_regions : List Region
  pub maximum_amount_paise : ℤ
  pub daily_budget_paise : ℤ
  pub currency : Currency
  pub autonomous_execution : Bool
  pub issued_at : Time
  pub expires_at : Time
  pub status : MandateStatus

-- `strip_buyer_id` and `normalize_categories`
unfoldable pub normalize : BuyerMandate → BuyerMandate
normalize m = record m {
  buyer_id = strip m.buyer_id;
  category_scope = map (λ c. lower (strip c)) m.category_scope;
}

-- The bounds of the fields, then `_validate_expiry`.
unfoldable pub validate_expiry : BuyerMandate → Result MandateError BuyerMandate
validate_expiry m =
    if is_empty m.buyer_id
      || ltb_ℤ m.version (pos 1)
      || ltb_ℤ m.maximum_amount_paise (pos 0)
      || ltb_ℤ m.daily_budget_paise (pos 0)
    then err MandateError.validation
    else if leb_ℤ m.expires_at m.issued_at
    then err MandateError.expiry_order
    else if ltb_ℤ m.daily_budget_paise m.maximum_amount_paise
    then err MandateError.budget_order
    else ok m

-- the constructor
unfoldable pub buyer_mandate : BuyerMandate → Result MandateError BuyerMandate
unfolding validate_expiry normalize
buyer_mandate m = validate_expiry (normalize m)

-- `text in texts`, and `region in regions`
unfoldable pub text_in : String → List String → Bool
text_in s [] = false
text_in s (t ∷ ts) = str_eq s t || text_in s ts

unfoldable pub region_in : Region → List Region → Bool
region_in r [] = false
region_in r (q ∷ qs) = same_region r q || region_in r qs

abbrev pub is_active_status : MandateStatus → Bool
is_active_status MandateStatus.active = true
is_active_status _ = false

unfoldable pub is_active : BuyerMandate → Option Time → Time → Bool
is_active m at now = is_active_status m.status && ltb_ℤ (time_or_now at now) m.expires_at

unfoldable pub authorizes_merchant : BuyerMandate → String → Bool
unfolding text_in
authorizes_merchant m s = text_in s m.merchant_scope

unfoldable pub authorizes_category : BuyerMandate → String → Bool
unfolding text_in
authorizes_category m c = text_in (lower (strip c)) m.category_scope

unfoldable pub authorizes_amount : BuyerMandate → ℤ → Bool
authorizes_amount m amount = leb_ℤ amount m.maximum_amount_paise

unfoldable pub authorizes_region : BuyerMandate → Region → Bool
unfolding region_in
authorizes_region m r = region_in r m.allowed_regions
