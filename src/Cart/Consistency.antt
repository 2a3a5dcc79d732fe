-- ===== src/Cart/Consistency.antt =====
-- What the constructor of a cart (cart.py) accepts.
use mandate_gateway.Base.{
  ◌≡◌, ◌≢◌, ◌≤◌, true, false, refl, ◌↔◌, inl, inr, List, [], ◌∷◌, arith, eq_iff, Result-cases, ok,
}
use mandate_gateway.Int.{pos, ◌+ℤ◌, ◌≤ℤ◌}
use mandate_gateway.Text.{is_empty, text_length}
use mandate_gateway.Types.{same_currency}
use mandate_gateway.Cart.{
  Cart, CartItem, check_items, items_total, validate_items, new_cart, item_in_bounds,
  items_in_bounds, has_items, cart_in_bounds,
}

-- every item has the currency and the merchant of the cart
abbrev pub AllMatch : Cart → List CartItem → Type 0
AllMatch c [] = Unit
AllMatch c (i ∷ is) = (i.currency ≡ c.currency) × (i.merchant_id ≡ c.merchant_id) × AllMatch c is

check_items_iff : (c : Cart) (is : List CartItem) → (check_items c is ≡ ok tt) ↔ AllMatch c is
unfolding check_items same_currency
check_items_iff c [] = (λ h. tt, λ h. refl)
check_items_iff c (i ∷ is) =
    let rec = check_items_iff c is in
    let merchant = eq_iff i.merchant_id c.merchant_id in
    (
      λ h. (ground arith, ground (arith, merchant), rec.0 (ground (arith, merchant))),
      λ h. ground (arith, merchant, h.0, h.1, rec.1 h.2),
    )

validator_iff :
    (c : Cart)
    → (validate_items c ≡ ok c) ↔ (
        AllMatch c c.items
        × (c.total_paise ≡ items_total c.items +ℤ c.tax_paise +ℤ c.shipping_paise))
unfolding validate_items
validator_iff c = elim (Result-cases (check_items c c.items)) [
  | inr (x, e) ↦
      (λ h. absurd (ground arith), λ h. absurd (ground (arith, (check_items_iff c c.items).1 h.0)))
  | inl (u, e) ↦ (λ h. ((check_items_iff c c.items).0 e, ground arith), λ h. ground (arith, h.1))
]

-- The texts of an item are not empty and not too long, at least one unit is ordered, and the price
-- is not negative.
pub record IsItem (i : CartItem) : Type 0 where
  pub product_id : is_empty i.product_id ≡ false
  pub merchant_id : is_empty i.merchant_id ≡ false
  pub name : is_empty i.name ≡ false
  pub name_length : text_length i.name ≤ 500
  pub category : is_empty i.category ≡ false
  pub category_length : text_length i.category ≤ 100
  pub quantity : pos 1 ≤ℤ i.quantity
  pub unit_price : pos 0 ≤ℤ i.unit_price_paise

abbrev pub AllItems : List CartItem → Type 0
AllItems [] = Unit
AllItems (i ∷ is) = IsItem i × AllItems is

-- what a cart must be
pub record IsConsistent (c : Cart) : Type 0 where
  pub merchant_id : is_empty c.merchant_id ≡ false
  pub mandate_id : is_empty c.mandate_id ≡ false
  pub nonempty : c.items ≢ []
  pub items : AllItems c.items
  pub tax : pos 0 ≤ℤ c.tax_paise
  pub shipping : pos 0 ≤ℤ c.shipping_paise
  pub total_bound : pos 0 ≤ℤ c.total_paise
  pub same : AllMatch c c.items
  pub total : c.total_paise ≡ items_total c.items +ℤ c.tax_paise +ℤ c.shipping_paise

IsItem-iff : (i : CartItem) → (item_in_bounds i ≡ true) ↔ IsItem i
unfolding item_in_bounds
IsItem-iff i = (
  λ h. record {
    product_id = ground arith;
    merchant_id = ground arith;
    name = ground arith;
    name_length = ground arith;
    category = ground arith;
    category_length = ground arith;
    quantity = ground arith;
    unit_price = ground arith;
  },
  λ b. ground (
    arith, b.product_id, b.merchant_id, b.name, b.name_length, b.category, b.category_length,
    b.quantity, b.unit_price,
  ),
)

AllItems-iff : (is : List CartItem) → (items_in_bounds is ≡ true) ↔ AllItems is
unfolding items_in_bounds
AllItems-iff [] = (λ h. tt, λ h. refl)
AllItems-iff (i ∷ is) =
    let rec = AllItems-iff is in
    (
      λ h. ((IsItem-iff i).0 (ground arith), rec.0 (ground arith)),
      λ h. ground (arith, (IsItem-iff i).1 h.0, rec.1 h.1),
    )

has_items_iff : (is : List CartItem) → (has_items is ≡ true) ↔ (is ≢ [])
has_items_iff [] = (λ h. absurd (ground arith), λ h. absurd (h refl))
has_items_iff (i ∷ is) = (λ h e. ground arith, λ h. refl)

-- The constructor accepts a cart exactly if its identifiers are not empty, it has an item, every item
-- is within the bounds of its fields and has the currency and the merchant of the cart, the tax, the
-- shipping and the total are not negative, and the total is the sum of the items' subtotals, the tax
-- and the shipping.
pub valid_cart_iff : (c : Cart) → (new_cart c ≡ ok c) ↔ IsConsistent c
unfolding new_cart cart_in_bounds
valid_cart_iff c = (
  λ h.
      let valid : validate_items c ≡ ok c = ground arith in
      let (same, total) = (validator_iff c).0 valid in
      record {
        merchant_id = ground arith;
        mandate_id = ground arith;
        nonempty = (has_items_iff c.items).0 (ground arith);
        items = (AllItems-iff c.items).0 (ground arith);
        tax = ground arith;
        shipping = ground arith;
        total_bound = ground arith;
        same = same;
        total = total;
      },
  λ k.
      let valid = (validator_iff c).1 (k.same, k.total) in
      let some_item = (has_items_iff c.items).1 k.nonempty in
      let bounds = (AllItems-iff c.items).1 k.items in
      ground (
        arith, valid, some_item, bounds, k.merchant_id, k.mandate_id, k.tax, k.shipping,
        k.total_bound,
      ),
)
