-- ===== src/Cart/Tests.antt =====
-- A cart at concrete inputs: two books of 150 paise, and 20 for shipping.
use mandate_gateway.Base.{◌≡◌, ◌↔◌, refl, [], ◌∷◌, ok, err}
use mandate_gateway.Int.{pos, ◌+ℤ◌, ◌*ℤ◌}
use mandate_gateway.Types.{Currency, same_currency}
use mandate_gateway.Cart.{
  Cart, CartError, check_items, items_total, subtotal_paise, validate_items, new_cart,
}
use mandate_gateway.Text.{text_length}
use mandate_gateway.Cart.Consistency.{IsConsistent, valid_cart_iff}

abbrev books : Cart
books = record {
  merchant_id = "shop";
  mandate_id = "mandate";
  currency = Currency.inr;
  items =
      record {
        product_id = "book";
        merchant_id = "shop";
        name = "A book";
        category = "books";
        quantity = pos 2;
        unit_price_paise = pos 150;
        currency = Currency.inr;
      }
      ∷ [];
  tax_paise = pos 0;
  shipping_paise = pos 20;
  total_paise = pos 320;
  cart_hash = "";
}

valid_cart_iff_example : (new_cart books ≡ ok books) ↔ IsConsistent books
valid_cart_iff_example = valid_cart_iff books

books_test : new_cart books ≡ ok books
unfolding new_cart validate_items check_items same_currency items_total subtotal_paise ◌+ℤ◌ ◌*ℤ◌
    text_length
books_test = refl

-- a cart without items
no_items : new_cart (record books { items = []; total_paise = pos 20 }) ≡ err CartError.validation
unfolding new_cart
no_items = refl
