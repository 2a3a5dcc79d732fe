-- ===== src/Money/Arithmetic.antt =====
-- The arithmetic of amounts: their bounds, which sums and differences exist, and that a sum can be
-- taken back.
use mandate_gateway.Base.{
  suc, ◌+◌, ◌≤◌, ◌≡◌, refl, ◌↔◌, inl, inr, true, false, arith, Bool-cases, ok,
}
use mandate_gateway.Int.{
  ℤ, pos, pos_part, neg_part, ◌+ℤ◌, ◌-ℤ◌, ◌≤ℤ◌, int_laws, ltb_ℤ, +ℤ_parts, -ℤ_parts, eq_of_parts,
}
use mandate_gateway.Types.{Currency, same_currency}
use mandate_gateway.Money.{Money, max_paise, money, add, sub}

-- what a constructed amount satisfies
abbrev pub InBounds : Money → Type 0
InBounds a = (pos 0 ≤ℤ a.paise) × (a.paise ≤ℤ max_paise)

same_currency_iff : (c d : Currency) → (same_currency c d ≡ true) ↔ (c ≡ d)
unfolding same_currency
same_currency_iff Currency.inr Currency.inr = (λ h. refl, λ h. refl)
same_currency_iff Currency.usd Currency.usd = (λ h. refl, λ h. refl)
same_currency_iff Currency.inr Currency.usd =
    (λ h. absurd (ground arith), λ h. absurd (ground arith))
same_currency_iff Currency.usd Currency.inr =
    (λ h. absurd (ground arith), λ h. absurd (ground arith))

abbrev amount : ℤ → Currency → Money
amount paise c = record { paise = paise; currency = c }

money_iff :
    (paise : ℤ) (c : Currency) (r : Money)
    → (money paise c ≡ ok r) ↔ ((r ≡ amount paise c) × InBounds (amount paise c))
unfolding money
money_iff paise c r =
    (λ h. (ground arith, (ground arith, ground arith)), λ h. ground (arith, h.0, h.1))

-- The parts of a sum and a difference of two constructed amounts.
lt_of_ltb : (a b : ℤ) → ltb_ℤ a b ≡ true → suc (pos_part a + neg_part b) ≤ pos_part b + neg_part a
lt_of_ltb a b h = ground arith

le_of_ltb : (a b : ℤ) → ltb_ℤ a b ≡ false → b ≤ℤ a
le_of_ltb a b h = ground arith

nonneg_sum : (a b : ℤ) → pos 0 ≤ℤ a → pos 0 ≤ℤ b → pos 0 ≤ℤ a +ℤ b
nonneg_sum a b ha hb = omega int_laws

sum_minus : (a b : ℤ) → (a +ℤ b) -ℤ b ≡ a
sum_minus a b = eq_of_parts _ _ (omega (arith, -ℤ_parts (a +ℤ b) b, +ℤ_parts a b))

difference_plus : (a b : ℤ) → (a -ℤ b) +ℤ b ≡ a
difference_plus a b = eq_of_parts _ _ (omega (arith, +ℤ_parts (a -ℤ b) b, -ℤ_parts a b))

module _ (a b r : Money) (a_InBounds : InBounds a) (b_InBounds : InBounds b) where
  -- A sum exists exactly for amounts of one currency whose total is at most the maximum, and is
  -- then that total.
  pub add_iff : (add a b ≡ ok r) ↔ (
      (a.currency ≡ b.currency)
      × (a.paise +ℤ b.paise ≤ℤ max_paise)
      × (r ≡ record { paise = a.paise +ℤ b.paise; currency = a.currency }))
  unfolding add
  add_iff =
      let total = money_iff (a.paise +ℤ b.paise) a.currency r in
      let same = same_currency_iff a.currency b.currency in
      let nonneg = nonneg_sum a.paise b.paise a_InBounds.0 b_InBounds.0 in
      elim (Bool-cases (same_currency a.currency b.currency)) [
        | inr other ↦ (λ h. absurd (ground arith), λ h. absurd (ground (arith, same.1 h.0)))
        | inl one ↦
            let sum : add a b ≡ money (a.paise +ℤ b.paise) a.currency = ground arith in
            rw sum
              (λ h. (same.0 one, (total.0 h).1.1, (total.0 h).0), λ h. total.1 (h.2, (nonneg, h.1)))
      ]

  -- A difference exists exactly for amounts of one currency of which the second is at most the
  -- first, and is then the difference.
  sub_iff : (sub a b ≡ ok r) ↔ (
      (a.currency ≡ b.currency)
      × (b.paise ≤ℤ a.paise)
      × (r ≡ record { paise = a.paise -ℤ b.paise; currency = a.currency }))
  unfolding sub
  sub_iff =
      let total = money_iff (a.paise -ℤ b.paise) a.currency r in
      let same = same_currency_iff a.currency b.currency in
      let parts = -ℤ_parts a.paise b.paise in
      let (low, high) = a_InBounds in
      let low_b = b_InBounds.0 in
      elim (Bool-cases (same_currency a.currency b.currency)) [
        | inr other ↦ (λ h. absurd (ground arith), λ h. absurd (ground (arith, same.1 h.0)))
        | inl one ↦ elim (Bool-cases (ltb_ℤ (a.paise -ℤ b.paise) (pos 0))) [
          | inl below ↦ (
            λ h. absurd (ground arith),
            λ h. absurd (omega (arith, lt_of_ltb (a.paise -ℤ b.paise) (pos 0) below, parts, h.1)),
          )
          | inr above ↦
              let difference : sub a b ≡ money (a.paise -ℤ b.paise) a.currency = ground arith in
              let bounds = le_of_ltb (a.paise -ℤ b.paise) (pos 0) above in
              rw difference (
                λ h. (same.0 one, omega (arith, bounds, parts), (total.0 h).0),
                λ h. total.1 (h.2, (bounds, omega (arith, bounds, parts, low_b, high))),
              )
        ]
      ]

Money_path : (a : Money) (paise : ℤ) → paise ≡ a.paise → a ≡ amount paise a.currency
Money_path a paise e = rw e refl

module _ (a b s : Money) (a_InBounds : InBounds a) (b_InBounds : InBounds b)
    (s_InBounds : InBounds s) where
  sub-add : add a b ≡ ok s → sub s b ≡ ok a
  sub-add h =
      let (one, high, shape) = (add_iff a b s a_InBounds b_InBounds).0 h in
      let nonneg = nonneg_sum a.paise b.paise a_InBounds.0 b_InBounds.0 in
      let back = Money_path a ((a.paise +ℤ b.paise) -ℤ b.paise) (sum_minus a.paise b.paise) in
      rw shape (
        (sub_iff (amount (a.paise +ℤ b.paise) a.currency) b a (nonneg, high) b_InBounds).1
          (one, omega (arith, a_InBounds.0, +ℤ_parts a.paise b.paise), back))

  add-sub : sub s b ≡ ok a → add a b ≡ ok s
  add-sub h =
      let (one, low, shape) = (sub_iff s b a s_InBounds b_InBounds).0 h in
      let parts = -ℤ_parts s.paise b.paise in
      let plus = difference_plus s.paise b.paise in
      let bounds : InBounds (amount (s.paise -ℤ b.paise) s.currency) =
        (omega (arith, low, parts), omega (arith, s_InBounds.1, b_InBounds.0, parts)) in
      rw shape (
        (add_iff (amount (s.paise -ℤ b.paise) s.currency) b s bounds b_InBounds).1
          (one, rw plus s_InBounds.1, Money_path s ((s.paise -ℤ b.paise) +ℤ b.paise) plus))

  -- For amounts within the bounds, `a + b` is `s` exactly if `s - b` is `a`.
  pub add_iff_sub : (add a b ≡ ok s) ↔ (sub s b ≡ ok a)
  add_iff_sub = (sub-add, add-sub)
