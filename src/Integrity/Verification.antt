-- ===== src/Integrity/Verification.antt =====
-- Which carts `CartIntegrityVerifier.verify` accepts.
use Prim.Native.String.{[] as text_nil, ◌∷◌ as text_cons}
use mandate_gateway.Base.{String, ◌≡◌, refl, sym, ap, ◌∙◌, ◌↔◌, true, false, Option, arith, eq_iff}
use mandate_gateway.Text.{lower, is_empty}
use mandate_gateway.Clock.{Time, time_or_now}
use mandate_gateway.Cart.{Cart}
use mandate_gateway.Integrity.{
  CanonicalCart, Authorized, canonical_cart, compute_cart_hash, is_valid_hex64, hash_of,
  expected_hash, compare_hashes, verify_integrity,
}

compare_hashes-valid :
    (expected current : String) (a : Authorized) (c : Cart) (t : Time)
    → ((compare_hashes expected current a c t).valid ≡ true)
      ↔ ((is_valid_hex64 expected ≡ true) × (expected ≡ current))
unfolding compare_hashes
compare_hashes-valid expected current a c t = (
  λ h. (ground (arith, eq_iff expected current), ground (arith, eq_iff expected current)),
  λ h. rw (sym h.1, h.0, (eq_iff expected expected).1 refl) refl,
)

hex-nonempty : (s : String) → is_valid_hex64 s ≡ true → is_empty s ≡ false
unfolding is_valid_hex64
hex-nonempty text_nil h = absurd (ground arith)
hex-nonempty (text_cons x s) h = refl

carried_hash :
    (digest : CanonicalCart → String) (c : Cart)
    → is_empty c.cart_hash ≡ false
    → hash_of digest c ≡ c.cart_hash
unfolding hash_of
carried_hash digest c given = rw given refl

module _ (digest : CanonicalCart → String) (a c : Cart) (at : Option Time) (now : Time) where
  -- For two carts that carry no hash of their own, whose digests are lower-case hexadecimal texts
  -- of 64 digits and do not collide, the verification accepts the current cart exactly if its
  -- canonical form is the authorized one's.
  pub verified_iff_same_cart :
      a.cart_hash ≡ ""
      → c.cart_hash ≡ ""
      → is_valid_hex64 (digest (canonical_cart a)) ≡ true
      → lower (digest (canonical_cart c)) ≡ digest (canonical_cart c)
      → (digest (canonical_cart a) ≡ digest (canonical_cart c)
          → canonical_cart a ≡ canonical_cart c)
      → ((verify_integrity digest (Authorized.cart a) c at now).valid ≡ true)
        ↔ (canonical_cart a ≡ canonical_cart c)
  unfolding verify_integrity expected_hash hash_of compute_cart_hash
  verified_iff_same_cart no_hash no_hash' hex low distinct =
      rw (no_hash, no_hash', low)
        (
          λ h.
              distinct
                ((compare_hashes-valid _ _ (Authorized.cart a) c (time_or_now at now)).0 h).1,
          λ e.
              (compare_hashes-valid _ _ (Authorized.cart a) c (time_or_now at now)).1
                (hex, ap digest e),
        )

  -- A current cart that carries the hash of the authorized cart is accepted whatever its contents:
  -- the carried hash is compared and not computed anew.
  pub carried_hash-accepted :
      is_valid_hex64 a.cart_hash ≡ true
      → lower a.cart_hash ≡ a.cart_hash
      → c.cart_hash ≡ a.cart_hash
      → (verify_integrity digest (Authorized.cart a) c at now).valid ≡ true
  unfolding verify_integrity expected_hash
  carried_hash-accepted hex low carried =
      let given = hex-nonempty a.cart_hash hex in
      let expected = carried_hash digest a given in
      let current = carried_hash digest c (rw carried given) ∙ carried in
      rw (expected, current, low)
        ((compare_hashes-valid a.cart_hash a.cart_hash (Authorized.cart a) c (time_or_now at now)).1
          (hex, refl))
