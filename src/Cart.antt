-- ===== src/Cart.antt =====
-- apps/api/domain/cart.py and apps/api/domain/intent.py: the cart and the intent that a mandate is
-- evaluated against. The identifier and the time of a cart, which have no bounds, are not modelled,
-- nor the free text of an intent and its metadata but "operation".
pub mod Consistency
mod Tests
use mandate_gateway.Base.{
  String, Bool, true, false, not, ◌&&◌, Option, leb, List, [], ◌∷◌, str_eq, if◌then◌else◌, Result,
  ok, err,
}
use mandate_gateway.Int.{ℤ, pos, ◌+ℤ◌, ◌*ℤ◌, eqb_ℤ, ltb_ℤ}
use mandate_gateway.Text.{is_empty, text_length}
use mandate_gateway.Types.{Currency, Region, same_currency}

pub data CartError : Type 0 where
  validation item_currency item_merchant total_mismatch : CartError

pub record CartItem : Type 0 where
  pub product_id : String
  pub merchant_id : String
  pub name : String
  pub category : String
  pub quantity : ℤ
  pub unit_price_paise : ℤ
  pub currency : Currency

unfoldable pub subtotal_paise : CartItem → ℤ
subtotal_paise i = i.quantity *ℤ i.unit_price_paise

pub record Cart : Type 0 where
  pub merchant_id : String
  pub mandate_id : String
  pub currency : Currency
  pub items : List CartItem
  pub tax_paise : ℤ
  pub shipping_paise : ℤ
  pub total_paise : ℤ
  pub cart_hash : String

-- `sum(i.subtotal_paise() for i in self.items)`
unfoldable pub items_total : List CartItem → ℤ
unfolding subtotal_paise
items_total [] = pos 0
items_total (i ∷ is) = subtotal_paise i +ℤ items_total is

-- the loop of `_validate_items`
unfoldable pub check_items : Cart → List CartItem → Result CartError Unit
check_items c [] = ok tt
check_items c (i ∷ is) =
    let rest = check_items c is in
    if not (same_currency i.currency c.currency)
    then err CartError.item_currency
    else if not (str_eq i.merchant_id c.merchant_id)
    then err CartError.item_merchant
    else rest

unfoldable pub validate_items : Cart → Result CartError Cart
unfolding check_items items_total
validate_items c = elim (check_items c c.items) [
  | err x ↦ err x
  | ok _ ↦
      if not (eqb_ℤ c.total_paise (items_total c.items +ℤ c.tax_paise +ℤ c.shipping_paise))
      then err CartError.total_mismatch
      else ok c
]

-- the bounds of the fields of an item
unfoldable pub item_in_bounds : CartItem → Bool
item_in_bounds i =
    not (is_empty i.product_id)
    && not (is_empty i.merchant_id)
    && not (is_empty i.name)
    && leb (text_length i.name) 500
    && not (is_empty i.category)
    && leb (text_length i.category) 100
    && not (ltb_ℤ i.quantity (pos 1))
    && not (ltb_ℤ i.unit_price_paise (pos 0))

unfoldable pub items_in_bounds : List CartItem → Bool
unfolding item_in_bounds
items_in_bounds [] = true
items_in_bounds (i ∷ is) = item_in_bounds i && items_in_bounds is

-- `min_length=1`, for the items
abbrev pub has_items : List CartItem → Bool
has_items [] = false
has_items (i ∷ is) = true

-- the bounds of the fields of a cart
unfoldable pub cart_in_bounds : Cart → Bool
unfolding items_in_bounds
cart_in_bounds c =
    not (is_empty c.merchant_id)
    && not (is_empty c.mandate_id)
    && has_items c.items
    && items_in_bounds c.items
    && not (ltb_ℤ c.tax_paise (pos 0))
    && not (ltb_ℤ c.shipping_paise (pos 0))
    && not (ltb_ℤ c.total_paise (pos 0))

-- the constructor: the bounds of the fields, and then the validator
unfoldable pub new_cart : Cart → Result CartError Cart
unfolding cart_in_bounds validate_items
new_cart c = if cart_in_bounds c then validate_items c else err CartError.validation

pub record CommerceIntent : Type 0 where
  pub buyer_id : String
  pub target_category : Option String
  pub target_merchant_id : Option String
  pub max_budget_paise : Option ℤ
  pub currency : Currency
  pub region : Region
  -- `metadata.get("operation")`, if that is a text
  pub metadata_operation : Option String
