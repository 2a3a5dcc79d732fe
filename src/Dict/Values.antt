-- ===== src/Dict/Values.antt =====
-- What holds of every value of a dict, and sums over its values.
use mandate_gateway.Base.{
  String, ◌≡◌, refl, none, some, [], ◌∷◌, arith, str_eq, Bool-cases, inl, inr,
}
use mandate_gateway.Int.{ℤ, pos, ◌+ℤ◌, ◌≤ℤ◌, int_laws}
use mandate_gateway.Dict.{Dict, lookup, insert}

abbrev pub All {ℓ κ} : {V : Type ℓ} → (V → Type κ) → Dict V → Type κ
All P [] = Unit
All P ((k, v) ∷ d) = P v × All P d

module _ {ℓ κ} {V : Type ℓ} (P : V → Type κ) where
  pub All-insert : (k : String) (v : V) (d : Dict V) → All P d → P v → All P (insert k v d)
  unfolding insert
  All-insert k v [] h p = (p, tt)
  All-insert k v ((j, w) ∷ d) h p = ground (arith, All-insert k v d h.1 p)

  pub lookup-All : (k : String) (v : V) (d : Dict V) → All P d → lookup k d ≡ some v → P v
  unfolding lookup
  lookup-All k v [] h e = cc
  lookup-All k v ((j, w) ∷ d) h e = ground (arith, lookup-All k v d h.1)

pub All-map {ℓ κ μ} :
    {V : Type ℓ} (P : V → Type κ) (Q : V → Type μ)
    → ((v : V) → P v → Q v)
    → (d : Dict V) → All P d
    → All Q d
All-map P Q f [] h = tt
All-map P Q f ((k, v) ∷ d) h = (f v h.0, All-map P Q f d h.1)

-- The sum of `f` over the values.
unfoldable pub total {ℓ} : {V : Type ℓ} → (V → ℤ) → Dict V → ℤ
total f [] = pos 0
total f ((k, v) ∷ d) = f v +ℤ total f d

module _ {ℓ} {V : Type ℓ} (f : V → ℤ) where
  pub total-insert :
      (k : String) (v old : V) (d : Dict V)
      → lookup k d ≡ some old
      → total f (insert k v d) +ℤ f old ≡ total f d +ℤ f v
  unfolding total insert lookup
  total-insert k v old [] e = cc
  total-insert k v old ((j, w) ∷ d) e = elim (Bool-cases (str_eq k j)) [
    | inl same ↦ grind (int_laws)
    | inr other ↦ grind (int_laws, total-insert k v old d)
  ]

  pub total-insert_new :
      (k : String) (v : V) (d : Dict V)
      → lookup k d ≡ none
      → total f (insert k v d) ≡ total f d +ℤ f v
  unfolding total insert lookup
  total-insert_new k v [] e = omega int_laws
  total-insert_new k v ((j, w) ∷ d) e = elim (Bool-cases (str_eq k j)) [
    | inl same ↦ grind (int_laws)
    | inr other ↦ grind (int_laws, total-insert_new k v d)
  ]

  total_nonneg : (d : Dict V) → All (λ w. pos 0 ≤ℤ f w) d → pos 0 ≤ℤ total f d
  unfolding total
  total_nonneg [] h = omega arith
  total_nonneg ((j, w) ∷ d) h = omega (int_laws, total_nonneg d h.1)

  -- With no negative value, no value passes the sum.
  pub le-total :
      (k : String) (v : V) (d : Dict V)
      → All (λ w. pos 0 ≤ℤ f w) d
      → lookup k d ≡ some v
      → f v ≤ℤ total f d
  unfolding total lookup
  le-total k v [] h e = cc
  le-total k v ((j, w) ∷ d) h e = elim (Bool-cases (str_eq k j)) [
    | inl same ↦ grind (int_laws, total_nonneg d h.1)
    | inr other ↦ grind (int_laws, le-total k v d h.1)
  ]

  pub total-nil : {d : Dict V} → d ≡ [] → total f d ≡ pos 0
  unfolding total
  total-nil e = rw e refl
