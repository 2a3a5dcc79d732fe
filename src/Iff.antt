-- ===== src/Iff.antt =====
-- Equivalences of statements, by which a ladder of tests is read as a predicate.
use mathlib.Core.Path.{subst}
use mandate_gateway.Base.{
  ◌≡◌, refl, ap, ◌↔◌, Option, some, get_or, ◌⊎◌, inl, inr, Bool, true, false, not, ◌||◌, arith,
}

pub not-false : (b : Bool) → (not b ≡ false) ↔ (b ≡ true)
not-false b = (λ h. ground arith, λ h. ground arith)

pub or_false : (a b : Bool) → (a || b ≡ false) ↔ ((a ≡ false) × (b ≡ false))
or_false a b = (λ h. (ground arith, ground arith), λ h. ground arith)

-- one side of an alternative replaced by an equivalent
pub inr_iff : {A B C : Type 0} → (B ↔ C) → (A ⊎ B) ↔ (A ⊎ C)
inr_iff e = (
  λ h. elim h [ inl a ↦ inl a | inr b ↦ inr (e.0 b) ],
  λ h. elim h [ inl a ↦ inl a | inr c ↦ inr (e.1 c) ],
)

pub both_iff : {A B C D : Type 0} → (A ↔ C) → (B ↔ D) → (A × B) ↔ (C × D)
both_iff e f = (λ h. (e.0 h.0, f.0 h.1), λ h. (e.1 h.0, f.1 h.1))

pub chain : {A B C : Type 0} → (A ↔ B) → (B ↔ C) → A ↔ C
chain e f = (λ a. f.0 (e.0 a), λ c. e.1 (f.1 c))

-- a statement about the value of an option that is there
pub given_iff :
    {A : Type 0} (P : A → Type 0) (a : A)
    → P a ↔ ((b : A) → ◌≡◌ {A = Option A} (some a) (some b) → P b)
given_iff {A} P a = (λ h b e. subst P (ap (λ (o : Option A). get_or o a) e) h, λ h. h a refl)
