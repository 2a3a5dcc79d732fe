-- ===== src/Integrity/Sorting.antt =====
-- The sorting of the items, and that the digest of a cart does not depend on their order.
use Prim.Native.Nat.{compare, Ordering}
use Prim.Native.Char.{code}
use Prim.Native.String.{[] as text_nil, ◌∷◌ as text_cons}
use text.Mathlib.TextEquality.{codes_equal}
use mandate_gateway.Base.{
  String, ◌≡◌, ◌≢◌, refl, sym, ap, ◌∙◌, inl, inr, true, false, List, [], ◌∷◌, arith, Bool-cases,
}
use mandate_gateway.Text.{text_le}
use mandate_gateway.Cart.{Cart, CartItem}
use mandate_gateway.Integrity.{
  CanonicalCart, insert_item, sorted_items, canonical_cart, compute_cart_hash,
}

text_le-total : (s t : String) → text_le s t ≡ false → text_le t s ≡ true
unfolding text_le
text_le-total text_nil t h = absurd (ground arith)
text_le-total (text_cons c s) text_nil h = refl
text_le-total (text_cons c s) (text_cons d t) h = ground (arith, text_le-total s t)

text_le_trans : (s t u : String) → text_le s t ≡ true → text_le t u ≡ true → text_le s u ≡ true
unfolding text_le
text_le_trans text_nil t u h k = refl
text_le_trans (text_cons c s) text_nil u h k = absurd (ground arith)
text_le_trans (text_cons c s) (text_cons d t) text_nil h k = absurd (ground arith)
text_le_trans (text_cons c s) (text_cons d t) (text_cons e u) h k =
    ground (arith, text_le_trans s t u)

text_le_antisymm : (s t : String) → text_le s t ≡ true → text_le t s ≡ true → s ≡ t
unfolding text_le
text_le_antisymm text_nil text_nil h k = refl
text_le_antisymm text_nil (text_cons d t) h k = absurd (ground arith)
text_le_antisymm (text_cons c s) text_nil h k = absurd (ground arith)
text_le_antisymm (text_cons c s) (text_cons d t) h k =
    let codes : compare (code c) (code d) ≡ Ordering.eq = ground arith in
    let rest = text_le_antisymm s t (ground arith) (ground arith) in
    λ i. text_cons (codes_equal c d codes i) (rest i)

-- of two different texts one stands before the other
text_le-exclusive : (s t : String) → s ≢ t → text_le s t ≡ true → text_le t s ≡ false
text_le-exclusive s t h before = elim (Bool-cases (text_le t s)) [
  | inl behind ↦ absurd (h (text_le_antisymm s t before behind))
  | inr not_behind ↦ not_behind
]

module _ (i j : CartItem) (h : i.product_id ≢ j.product_id) where
  insert_item-before :
      (ks : List CartItem)
      → text_le i.product_id j.product_id ≡ true
      → insert_item i (insert_item j ks) ≡ insert_item j (insert_item i ks)
  unfolding insert_item
  insert_item-before [] before =
      rw (before, text_le-exclusive i.product_id j.product_id h before) refl
  insert_item-before (k ∷ ks) before =
      let after = text_le-exclusive i.product_id j.product_id h before in
      elim (Bool-cases (text_le j.product_id k.product_id)) [
        | inl early ↦
            let earlier = text_le_trans i.product_id j.product_id k.product_id before early in
            rw (early, before, earlier, after, early) refl
        | inr late ↦ elim (Bool-cases (text_le i.product_id k.product_id)) [
          | inl early ↦ rw (late, early, after, late) refl
          | inr later ↦ rw (late, later, late) (ap (λ l. k ∷ l) (insert_item-before ks before))
        ]
      ]

-- Items of two products may be inserted in either order.
insert_item_comm :
    (i j : CartItem)
    → i.product_id ≢ j.product_id
    → (ks : List CartItem) → insert_item i (insert_item j ks) ≡ insert_item j (insert_item i ks)
insert_item_comm i j h ks = elim (Bool-cases (text_le i.product_id j.product_id)) [
  | inl before ↦ insert_item-before i j h ks before
  | inr behind ↦
      sym (
        insert_item-before j i (λ e. h (sym e)) ks (text_le-total i.product_id j.product_id behind))
]

-- Two orders of the same items, which differ by swaps of neighbours of different products.
pub data Reordered : List CartItem → List CartItem → Type 0 where
  same : {is : List CartItem} → Reordered is is
  swap :
      (i j : CartItem) (ks : List CartItem)
      → i.product_id ≢ j.product_id
      → Reordered (i ∷ j ∷ ks) (j ∷ i ∷ ks)
  keep : (i : CartItem) {is js : List CartItem} → Reordered is js → Reordered (i ∷ is) (i ∷ js)
  next : {is js ks : List CartItem} → Reordered is js → Reordered js ks → Reordered is ks

sorted_items-Reordered :
    {is js : List CartItem} → Reordered is js → sorted_items is ≡ sorted_items js
unfolding sorted_items
sorted_items-Reordered same = refl
sorted_items-Reordered (swap i j ks h) = insert_item_comm i j h (sorted_items ks)
sorted_items-Reordered (keep i r) = ap (insert_item i) (sorted_items-Reordered r)
sorted_items-Reordered (next r q) = sorted_items-Reordered r ∙ sorted_items-Reordered q

-- The canonical digest of a cart does not depend on the order of its items, as long as lines of one
-- product stay in their order.
pub compute_cart_hash-Reordered :
    (digest : CanonicalCart → String) (c : Cart) (items : List CartItem)
    → Reordered c.items items
    → compute_cart_hash digest (record c { items = items }) ≡ compute_cart_hash digest c
unfolding compute_cart_hash canonical_cart
compute_cart_hash-Reordered digest c items r = rw (sorted_items-Reordered r) refl
