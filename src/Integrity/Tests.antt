-- ===== src/Integrity/Tests.antt =====
-- The integrity of carts at concrete inputs.
use mandate_gateway.Base.{
  String, ◌≡◌, refl, ◌↔◌, true, none, List, [], ◌∷◌, if◌then◌else◌, arith, eq_iff,
}
use mandate_gateway.Int.{ℤ, pos, eqb_ℤ}
use mandate_gateway.Text.{lower}
use mandate_gateway.Types.{Currency}
use mandate_gateway.Cart.{Cart, CartItem}
use mandate_gateway.Integrity.{
  CanonicalCart, Authorized, canonical_cart, compute_cart_hash, is_valid_hex64, verify_integrity,
}
use mandate_gateway.Integrity.Sorting.{Reordered, compute_cart_hash-Reordered}
use mandate_gateway.Integrity.Verification.{verified_iff_same_cart, carried_hash-accepted}

abbrev item : String → CartItem
item product_id = record {
  product_id = product_id;
  name = "A book";
  merchant_id = "shop";
  category = "books";
  quantity = pos 1;
  unit_price_paise = pos 100;
  currency = Currency.inr;
}

abbrev cart : List CartItem → ℤ → String → Cart
cart items total hash = record {
  merchant_id = "shop";
  mandate_id = "mandate";
  currency = Currency.inr;
  items = items;
  tax_paise = pos 0;
  shipping_paise = pos 0;
  total_paise = total;
  cart_hash = hash;
}

abbrev hash_a : String
hash_a = "aaaaaaaaaaaaaaaaaaaaaaaaaaaaaaaaaaaaaaaaaaaaaaaaaaaaaaaaaaaaaaaa"

abbrev hash_b : String
hash_b = "bbbbbbbbbbbbbbbbbbbbbbbbbbbbbbbbbbbbbbbbbbbbbbbbbbbbbbbbbbbbbbbb"

abbrev digest : CanonicalCart → String
digest c = if eqb_ℤ c.total_paise (pos 200) then hash_a else hash_b

abbrev small : Cart
small = cart (item "p1" ∷ item "p2" ∷ []) (pos 200) ""

abbrev big : Cart
big = cart (item "p1" ∷ item "p2" ∷ item "p3" ∷ []) (pos 300) ""

compute_cart_hash-Reordered_example :
    compute_cart_hash digest (record small { items = item "p2" ∷ item "p1" ∷ [] })
    ≡ compute_cart_hash digest small
compute_cart_hash-Reordered_example =
    compute_cart_hash-Reordered digest small (item "p2" ∷ item "p1" ∷ [])
      (Reordered.swap (item "p1") (item "p2") [] (λ h. ground (arith, eq_iff "p1" "p2")))

verified_iff_same_cart_example :
    ((verify_integrity digest (Authorized.cart small) big none (pos 1)).valid ≡ true)
    ↔ (canonical_cart small ≡ canonical_cart big)
unfolding is_valid_hex64 lower canonical_cart
verified_iff_same_cart_example =
    verified_iff_same_cart digest small big none (pos 1) refl refl refl refl
      (λ h. absurd (ground (arith, eq_iff hash_a hash_b)))

carried_hash-accepted_example :
    (verify_integrity digest
      (Authorized.cart (record small { cart_hash = hash_a }))
      (record big { cart_hash = hash_a })
      none
      (pos 1)).valid
    ≡ true
unfolding is_valid_hex64 lower
carried_hash-accepted_example =
    carried_hash-accepted digest (record small { cart_hash = hash_a })
      (record big { cart_hash = hash_a }) none (pos 1) refl refl refl
