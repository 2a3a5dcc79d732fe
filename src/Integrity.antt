-- ===== src/Integrity.antt =====
-- apps/api/domain/cart_integrity.py: the canonical digest of a cart, and the verification of a cart
-- against the authorized one. `digest` is the SHA-256 of the canonical JSON object, a parameter.
-- Detail texts are not modelled.
pub mod Sorting
pub mod Verification
mod Tests
use mandate_gateway.Base.{
  ℕ, zero, suc, String, Bool, true, false, not, ◌&&◌, Option, none, some, List, [], ◌∷◌, ◌++◌, map,
  str_eq, ◌==◌, length, if◌then◌else◌, Result, ok, err,
}
use Prim.Native.Char.{Char, code}
use Prim.Native.String.{[] as text_nil, ◌∷◌ as text_cons}
use mandate_gateway.Int.{ℤ, eqb_ℤ}
use mandate_gateway.Text.{strip, lower, is_empty, is_hex_digit, text_le}
use mandate_gateway.Clock.{Time, time_or_now}
use mandate_gateway.Types.{Currency, PolicyDecision, RejectionReason, same_currency}
use mandate_gateway.Cart.{Cart, CartItem, CartError, validate_items}
use mandate_gateway.Aggregator.{SecurityControlOutcome}

-- `count` hexadecimal digits and then the end, where a last line feed counts as the end: what `$`
-- accepts
unfoldable pub hex_digits : ℕ → String → Bool
unfolding is_hex_digit
hex_digits zero text_nil = true
hex_digits zero (text_cons c s) = code c == 10 && is_empty s
hex_digits (suc n) text_nil = false
hex_digits (suc n) (text_cons c s) = is_hex_digit c && hex_digits n s

unfoldable pub is_valid_hex64 : String → Bool
unfolding hex_digits
is_valid_hex64 s = hex_digits 64 s

pub record CanonicalItem : Type 0 where
  pub category : String
  pub merchant_id : String
  pub product_id : String
  pub quantity : ℤ
  pub unit_price_paise : ℤ

unfoldable pub canonical_item : CartItem → CanonicalItem
canonical_item i = record {
  category = lower (strip i.category);
  merchant_id = i.merchant_id;
  product_id = i.product_id;
  quantity = i.quantity;
  unit_price_paise = i.unit_price_paise;
}

-- what the digest of a cart is computed from
pub record CanonicalCart : Type 0 where
  pub currency : Currency
  pub items : List CanonicalItem
  pub mandate_id : String
  pub merchant_id : String
  pub shipping_paise : ℤ
  pub tax_paise : ℤ
  pub total_paise : ℤ

-- `sorted(items, key=lambda i: i.product_id)`, which is stable
unfoldable pub insert_item : CartItem → List CartItem → List CartItem
insert_item i [] = i ∷ []
insert_item i (j ∷ js) =
    let rest = insert_item i js in
    if text_le i.product_id j.product_id then i ∷ j ∷ js else j ∷ rest

unfoldable pub sorted_items : List CartItem → List CartItem
unfolding insert_item
sorted_items [] = []
sorted_items (i ∷ is) = insert_item i (sorted_items is)

unfoldable pub canonical_cart : Cart → CanonicalCart
unfolding canonical_item sorted_items
canonical_cart c = record {
  currency = c.currency;
  items = map canonical_item (sorted_items c.items);
  mandate_id = c.mandate_id;
  merchant_id = c.merchant_id;
  shipping_paise = c.shipping_paise;
  tax_paise = c.tax_paise;
  total_paise = c.total_paise;
}

-- `compute_cart_hash`, on the fields of a cart
unfoldable pub compute_cart_hash : (CanonicalCart → String) → Cart → String
unfolding canonical_cart
compute_cart_hash digest c = digest (canonical_cart c)

unfoldable pub build_cart_with_hash : (CanonicalCart → String) → Cart → Result CartError Cart
unfolding compute_cart_hash validate_items
build_cart_with_hash digest c = validate_items (record c { cart_hash = compute_cart_hash digest c })

pub data Mismatch : Type 0 where
  malformed_authorized_hash malformed_current_hash hash_mismatch : Mismatch
  merchant_id_mismatch mandate_id_mismatch currency_mismatch tax_paise_mismatch : Mismatch
  shipping_paise_mismatch total_paise_mismatch item_count_mismatch : Mismatch
  product_id_mismatch quantity_mismatch unit_price_mismatch category_mismatch : String → Mismatch

pub record CartIntegrityResult : Type 0 where
  pub valid : Bool
  pub authorized_hash : String
  pub current_hash : String
  pub rejection_reason : Option RejectionReason
  pub field_mismatches : List Mismatch
  pub evaluated_at : Time

unfoldable pub integrity_control_outcome : CartIntegrityResult → SecurityControlOutcome
integrity_control_outcome r = record {
  passed = r.valid;
  decision = if r.valid then PolicyDecision.allow else PolicyDecision.reject;
  rejection_reason = r.rejection_reason;
  step_up_diff = none;
}

-- the authorized cart, or its digest
pub data Authorized : Type 0 where
  cart : Cart → Authorized
  hash : String → Authorized

-- a cart's own `cart_hash` if it has one, else its digest
unfoldable pub hash_of : (CanonicalCart → String) → Cart → String
unfolding compute_cart_hash
hash_of digest c = if is_empty c.cart_hash then compute_cart_hash digest c else c.cart_hash

unfoldable pub expected_hash : (CanonicalCart → String) → Authorized → String
unfolding hash_of
expected_hash digest (Authorized.cart c) = hash_of digest c
expected_hash digest (Authorized.hash s) = lower (strip s)

-- `if differ: mismatches.append(m)`
abbrev pub noted : Bool → Mismatch → List Mismatch
noted differ m = if differ then m ∷ [] else []

unfoldable pub item_mismatches : List CartItem → List CartItem → List Mismatch
item_mismatches (a ∷ rest) (c ∷ cs) =
    noted (not (str_eq a.product_id c.product_id)) (Mismatch.product_id_mismatch c.product_id)
    ++ (noted (not (eqb_ℤ a.quantity c.quantity)) (Mismatch.quantity_mismatch c.product_id)
        ++ (noted (not (eqb_ℤ a.unit_price_paise c.unit_price_paise))
              (Mismatch.unit_price_mismatch c.product_id)
            ++ (noted (not (str_eq (lower (strip a.category)) (lower (strip c.category))))
                  (Mismatch.category_mismatch c.product_id)
                ++ item_mismatches rest cs)))
item_mismatches [] cs = []
item_mismatches (a ∷ rest) [] = []

unfoldable pub field_mismatches : Authorized → Cart → List Mismatch
unfolding item_mismatches sorted_items
field_mismatches (Authorized.hash s) c = Mismatch.hash_mismatch ∷ []
field_mismatches (Authorized.cart a) c =
    noted (not (str_eq a.merchant_id c.merchant_id)) Mismatch.merchant_id_mismatch
    ++ (noted (not (str_eq a.mandate_id c.mandate_id)) Mismatch.mandate_id_mismatch
        ++ (noted (not (same_currency a.currency c.currency)) Mismatch.currency_mismatch
            ++ (noted (not (eqb_ℤ a.tax_paise c.tax_paise)) Mismatch.tax_paise_mismatch
                ++ (noted (not (eqb_ℤ a.shipping_paise c.shipping_paise))
                      Mismatch.shipping_paise_mismatch
                    ++ (noted (not (eqb_ℤ a.total_paise c.total_paise))
                          Mismatch.total_paise_mismatch
                        ++ (if not (length (sorted_items a.items) == length (sorted_items c.items))
                            then Mismatch.item_count_mismatch ∷ []
                            else item_mismatches (sorted_items a.items) (sorted_items c.items)))))))

abbrev pub is_merchant_mismatch : Mismatch → Bool
is_merchant_mismatch Mismatch.merchant_id_mismatch = true
is_merchant_mismatch m = false

abbrev pub is_currency_mismatch : Mismatch → Bool
is_currency_mismatch Mismatch.currency_mismatch = true
is_currency_mismatch m = false

abbrev pub is_total_mismatch : Mismatch → Bool
is_total_mismatch Mismatch.total_paise_mismatch = true
is_total_mismatch m = false

abbrev pub any_mismatch : (Mismatch → Bool) → List Mismatch → Bool
any_mismatch p [] = false
any_mismatch p (m ∷ ms) = if p m then true else any_mismatch p ms

unfoldable pub mismatch_reason : List Mismatch → RejectionReason
mismatch_reason ms =
    if any_mismatch is_merchant_mismatch ms
    then RejectionReason.merchant_mismatch
    else if any_mismatch is_currency_mismatch ms
    then RejectionReason.cart_currency_mismatch
    else if any_mismatch is_total_mismatch ms
    then RejectionReason.cart_total_mismatch
    else RejectionReason.cart_integrity_violation

abbrev pub invalid : String → String → RejectionReason → List Mismatch → Time → CartIntegrityResult
invalid authorized current reason mismatches t = record {
  valid = false;
  authorized_hash = authorized;
  current_hash = current;
  rejection_reason = some reason;
  field_mismatches = mismatches;
  evaluated_at = t;
}

-- the comparison of the two hashes
unfoldable pub compare_hashes : String → String → Authorized → Cart → Time → CartIntegrityResult
unfolding is_valid_hex64 field_mismatches mismatch_reason
compare_hashes expected current authorized c t =
    if not (is_valid_hex64 expected)
    then invalid expected "" RejectionReason.cart_integrity_violation
        (Mismatch.malformed_authorized_hash ∷ []) t
    else if not (is_valid_hex64 current)
    then invalid expected current RejectionReason.cart_integrity_violation
        (Mismatch.malformed_current_hash ∷ []) t
    else if str_eq expected current
    then record {
      valid = true;
      authorized_hash = expected;
      current_hash = current;
      rejection_reason = none;
      field_mismatches = [];
      evaluated_at = t;
    }
    else invalid expected current (mismatch_reason (field_mismatches authorized c))
        (field_mismatches authorized c) t

-- `CartIntegrityVerifier.verify`
unfoldable pub verify_integrity :
    (CanonicalCart → String) → Authorized → Cart → Option Time → Time → CartIntegrityResult
unfolding expected_hash hash_of compare_hashes
verify_integrity digest authorized c at now =
    compare_hashes (expected_hash digest authorized) (lower (hash_of digest c)) authorized c
      (time_or_now at now)

unfoldable pub verify_cart_integrity : (CanonicalCart → String) → Cart → String → Time → Bool
unfolding verify_integrity
verify_cart_integrity digest c approved_hash now =
    (verify_integrity digest (Authorized.hash approved_hash) c none now).valid
