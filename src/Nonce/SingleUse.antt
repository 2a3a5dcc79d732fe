-- ===== src/Nonce/SingleUse.antt =====
-- How often one nonce is accepted (nonce_engine.py), in any sequence of calls.
use mandate_gateway.Base.{
  String, ℕ, suc, ◌≤◌, ◌≡◌, ◌≢◌, refl, inl, inr, Bool, true, false, ◌&&◌, Option, none, some, List,
  [], ◌∷◌, arith, str_eq, eq_iff, if◌then◌else◌, Option-cases, Bool-cases,
}
use mandate_gateway.Int.{ℤ}
use mandate_gateway.Text.{strip}
use mandate_gateway.Dict.{lookup, lookup-insert}
use mandate_gateway.Clock.{Time, add_seconds, time_or_now}
use mandate_gateway.Types.{NonceState}
use mandate_gateway.Nonce.{
  NonceRecord, NonceEngine, is_consumed, validate_and_consume, refusal, refused, consumed_record,
  issue_nonce, nonce_record,
}

pub data Call : Type 0 where
  issues : String → String → ℤ → Option Time → String → Time → Call
  consumes : String → String → String → Option Time → Time → Call

unfoldable pub step : NonceEngine → Call → NonceEngine
step e (issues m tx ttl at value now) = (issue_nonce m tx ttl at value now e).1
step e (consumes value m tx at now) = (validate_and_consume value m tx at now e).1

-- the call accepts the stored nonce `n`
unfoldable pub accepts : String → NonceEngine → Call → Bool
accepts n e (issues m tx ttl at value now) = false
accepts n e (consumes value m tx at now) =
    str_eq (strip value) n && (validate_and_consume value m tx at now e).0.valid

-- how many of the calls accept the nonce `n`
unfoldable pub accepted : String → NonceEngine → List Call → ℕ
accepted n e [] = 0
accepted n e (call ∷ calls) =
    let rest = accepted n (step e call) calls in if accepts n e call then suc rest else rest

-- No call issues `n` again: the random generator does not repeat it.
abbrev pub Fresh : String → List Call → Type 0
Fresh n [] = Unit
Fresh n (issues m tx ttl at value now ∷ calls) = (n ≢ value) × Fresh n calls
Fresh n (consumes value m tx at now ∷ calls) = Fresh n calls

abbrev is_spent : Option NonceRecord → Bool
is_spent none = false
is_spent (some r) = is_consumed r.state

module _ (n : String) where
  issue_keeps :
      (m tx : String) (ttl : ℤ) (at : Option Time) (value : String) (now : Time) (e : NonceEngine)
      → n ≢ value
      → lookup n (issue_nonce m tx ttl at value now e).1.records ≡ lookup n e.records
  unfolding issue_nonce nonce_record
  issue_keeps m tx ttl at value now e h = ground (
    arith,
    lookup-insert value n
        (record {
          nonce_value = value;
          transaction_id = strip tx;
          mandate_id = strip m;
          state = NonceState.issued;
          issued_at = time_or_now at now;
          expires_at = add_seconds (time_or_now at now) ttl;
          consumed_at = none;
        })
        e.records,
    eq_iff n value,
  )

  consume_spent :
      (value m tx : String) (at : Option Time) (now : Time) (e : NonceEngine)
      → is_spent (lookup n e.records) ≡ true
      → (accepts n e (consumes value m tx at now) ≡ false)
        × (is_spent (lookup n (validate_and_consume value m tx at now e).1.records) ≡ true)
  unfolding accepts validate_and_consume refused refusal
  consume_spent value m tx at now e h = elim (Option-cases (lookup (strip value) e.records)) [
    | inl missing ↦ (ground arith, ground arith)
    | inr (r, found) ↦ (
      ground (arith, eq_iff (strip value) n),
      ground (
        arith,
        lookup-insert (strip value) n (consumed_record r (time_or_now at now)) e.records,
        eq_iff n (strip value),
      ),
    )
  ]

  consume_spends :
      (value m tx : String) (at : Option Time) (now : Time) (e : NonceEngine)
      → accepts n e (consumes value m tx at now) ≡ true
      → is_spent (lookup n (validate_and_consume value m tx at now e).1.records) ≡ true
  unfolding accepts validate_and_consume refused
  consume_spends value m tx at now e h = elim (Option-cases (lookup (strip value) e.records)) [
    | inl missing ↦ ground arith
    | inr (r, found) ↦ ground (
      arith,
      lookup-insert (strip value) n (consumed_record r (time_or_now at now)) e.records,
      eq_iff n (strip value),
      eq_iff (strip value) n,
    )
  ]

  accepted_spent :
      (e : NonceEngine) (calls : List Call)
      → Fresh n calls
      → is_spent (lookup n e.records) ≡ true
      → accepted n e calls ≡ 0
  unfolding accepted step accepts
  accepted_spent e [] f s = refl
  accepted_spent e (issues m tx ttl at value now ∷ calls) f s =
      accepted_spent (step e (issues m tx ttl at value now)) calls f.1
        (rw (issue_keeps m tx ttl at value now e f.0) s)
  accepted_spent e (consumes value m tx at now ∷ calls) f s =
      let (refuses, still) = consume_spent value m tx at now e s in
      rw refuses (accepted_spent _ calls f still)

  -- If no later call issues the nonce again, then of all the calls that follow at most one is
  -- accepted with it.
  pub accepted_at_most_once :
      (e : NonceEngine) (calls : List Call) → Fresh n calls → accepted n e calls ≤ 1
  unfolding accepted step accepts
  accepted_at_most_once e [] f = omega arith
  accepted_at_most_once e (issues m tx ttl at value now ∷ calls) f =
      accepted_at_most_once (step e (issues m tx ttl at value now)) calls f.1
  accepted_at_most_once e (consumes value m tx at now ∷ calls) f =
      elim (Bool-cases (accepts n e (consumes value m tx at now))) [
        | inl yes_now ↦
            rw yes_now
              (omega (arith, accepted_spent _ calls f (consume_spends value m tx at now e yes_now)))
        | inr not_now ↦ rw not_now (accepted_at_most_once _ calls f)
      ]
