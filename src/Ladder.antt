-- ===== src/Ladder.antt =====
-- A ladder of named tests, each with the reason of its failure: either all pass, or one fails first.
-- The mandate's rules and the aggregator's controls are such ladders.
use mandate_gateway.Base.{◌≡◌, refl, ap, ◌↔◌, Option, none, some, List, [], ◌∷◌, ◌++◌}

pub append_assoc : {A : Type 0} (xs ys zs : List A) → (xs ++ ys) ++ zs ≡ xs ++ (ys ++ zs)
append_assoc [] ys zs = refl
append_assoc (x ∷ xs) ys zs = ap (λ l. x ∷ l) (append_assoc xs ys zs)

pub append_nil : {A : Type 0} (xs : List A) → xs ++ [] ≡ xs
append_nil [] = refl
append_nil (x ∷ xs) = ap (λ l. x ∷ l) (append_nil xs)

module _ {A B : Type 0} where
  -- tests that pass
  abbrev pub passing : List A → List (A × Option B)
  passing [] = []
  passing (a ∷ names) = (a, none) ∷ passing names

  -- The tests before the first failure pass.
  pub record FirstFailure (tests : List (A × Option B)) : Type 0 where
    pub before : List A
    pub name : A
    pub reason : B
    pub after : List (A × Option B)
    pub shape : tests ≡ passing before ++ (name, some reason) ∷ after

  -- every test passes
  abbrev pub AllPass : List (A × Option B) → Type 0
  AllPass [] = Unit
  AllPass ((a, r) ∷ tests) = (r ≡ none) × AllPass tests

  pub AllPass-append :
      (xs ys : List (A × Option B)) → AllPass (xs ++ ys) ↔ (AllPass xs × AllPass ys)
  AllPass-append [] ys = (λ h. (tt, h), λ h. h.1)
  AllPass-append ((c, r) ∷ xs) ys =
      let rec = AllPass-append xs ys in
      (λ h. ((h.0, (rec.0 h.1).0), (rec.0 h.1).1), λ h. (h.0.0, rec.1 (h.0.1, h.1)))
