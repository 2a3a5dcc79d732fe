-- ===== src/Replay/Window.antt =====
-- When a repeated action and a first one are accepted (replay_engine.py), after any calls.
use mandate_gateway.Base.{
  String, ◌≡◌, ◌≢◌, refl, ◌∙◌, true, false, some, List, [], ◌∷◌, arith, eq_iff,
}
use mandate_gateway.Int.{ℤ}
use mandate_gateway.Text.{is_blank}
use mandate_gateway.Dict.{lookup, lookup-insert, lookup-insert_self}
use mandate_gateway.Clock.{Time}
use mandate_gateway.Replay.{
  Digest, Action, compute_replay_fingerprint, ReplayRecord, ReplayEngine, is_expired,
  check_and_record, is_replayed, new_record,
}

pub record Call : Type 0 where
  pub action : Action
  pub ttl : ℤ
  pub at : Time

-- A record lives until its expiry; one without an expiry lives for ever.
abbrev pub LivesUntil : ReplayRecord → Time → Type 0
LivesUntil r t = is_expired r t ≡ false

module _ (digest : Digest) where
  unfoldable pub run : ReplayEngine → List Call → ReplayEngine
  run e [] = e
  run e (c ∷ calls) = run (check_and_record digest c.action c.ttl (some c.at) c.at e).1 calls

  -- every call comes before the record expires
  abbrev pub AllBefore : ReplayRecord → List Call → Type 0
  AllBefore r [] = Unit
  AllBefore r (c ∷ calls) = LivesUntil r c.at × AllBefore r calls

  live_stays :
      (key : String) (r : ReplayRecord) (c : Call) (e : ReplayEngine)
      → lookup key e.records ≡ some r
      → LivesUntil r c.at
      → lookup key (check_and_record digest c.action c.ttl (some c.at) c.at e).1.records ≡ some r
  unfolding check_and_record
  live_stays key r c e k l =
      let f = compute_replay_fingerprint digest c.action in
      ground (arith, lookup-insert f key (new_record f c.action c.ttl c.at) e.records, eq_iff key f)

  run_keeps :
      (key : String) (r : ReplayRecord) (calls : List Call) (e : ReplayEngine)
      → lookup key e.records ≡ some r
      → AllBefore r calls
      → lookup key (run e calls).records ≡ some r
  unfolding run
  run_keeps key r [] e k b = k
  run_keeps key r (c ∷ calls) e k b =
      run_keeps key r calls (check_and_record digest c.action c.ttl (some c.at) c.at e).1
        (live_stays key r c e k b.0) b.1

  accepted_stored :
      (a : Action) (ttl : ℤ) (t : Time) (e : ReplayEngine)
      → (check_and_record digest a ttl (some t) t e).0.valid ≡ true
      → lookup
          (compute_replay_fingerprint digest a)
          (check_and_record digest a ttl (some t) t e).1.records
        ≡ some (new_record (compute_replay_fingerprint digest a) a ttl t)
  unfolding check_and_record
  accepted_stored a ttl t e v =
      let f = compute_replay_fingerprint digest a in
      ground (arith, lookup-insert_self f (new_record f a ttl t) e.records)

  stored_blocks :
      (b : Action) (ttl : ℤ) (t : Time) (r : ReplayRecord) (e : ReplayEngine)
      → lookup (compute_replay_fingerprint digest b) e.records ≡ some r
      → LivesUntil r t
      → ((check_and_record digest b ttl (some t) t e).0.valid ≡ false)
        × ((check_and_record digest b ttl (some t) t e).1 ≡ e)
        × (is_replayed digest b (some t) t e ≡ true)
  unfolding check_and_record is_replayed
  stored_blocks b ttl t r e k l = (ground arith, ground arith, ground arith)

  -- After an action is accepted at time `t`, and any calls before its record expires, the same
  -- action is refused at every time before the expiry, changing nothing, and `is_replayed` says so;
  -- the same means an equal fingerprint.
  pub replay_blocked :
      (a b : Action) (ttl ttl' : ℤ) (t t' : Time) (calls : List Call) (e : ReplayEngine)
      → (check_and_record digest a ttl (some t) t e).0.valid ≡ true
      → compute_replay_fingerprint digest b ≡ compute_replay_fingerprint digest a
      → AllBefore (new_record (compute_replay_fingerprint digest a) a ttl t) calls
      → LivesUntil (new_record (compute_replay_fingerprint digest a) a ttl t) t'
      → let e' = run (check_and_record digest a ttl (some t) t e).1 calls in
        ((check_and_record digest b ttl' (some t') t' e').0.valid ≡ false)
        × ((check_and_record digest b ttl' (some t') t' e').1 ≡ e')
        × (is_replayed digest b (some t') t' e' ≡ true)
  replay_blocked a b ttl ttl' t t' calls e v same before alive =
      let f = compute_replay_fingerprint digest a in
      let r = new_record f a ttl t in
      let e₁ = (check_and_record digest a ttl (some t) t e).1 in
      stored_blocks b ttl' t' r (run e₁ calls)
        (rw same (run_keeps f r calls e₁ (accepted_stored a ttl t e v) before)) alive

  -- no call has the fingerprint of `a`
  abbrev pub NoneLike : Action → List Call → Type 0
  NoneLike a [] = Unit
  NoneLike a (c ∷ calls) =
      (compute_replay_fingerprint digest c.action ≢ compute_replay_fingerprint digest a)
      × NoneLike a calls

  others_keep :
      (a : Action) (calls : List Call) (e : ReplayEngine)
      → NoneLike a calls
      → lookup (compute_replay_fingerprint digest a) (run e calls).records
        ≡ lookup (compute_replay_fingerprint digest a) e.records
  unfolding run check_and_record
  others_keep a [] e h = refl
  others_keep a (c ∷ calls) e h =
      let f = compute_replay_fingerprint digest a in
      let g = compute_replay_fingerprint digest c.action in
      others_keep a calls (check_and_record digest c.action c.ttl (some c.at) c.at e).1 h.1
      ∙ ground (arith, lookup-insert g f (new_record g c.action c.ttl c.at) e.records, eq_iff f g)

  -- An action with both identifiers that no earlier call on an empty engine was like is accepted,
  -- whatever those calls were: replay protection never blocks a first use.
  pub first_use_accepted :
      (a : Action) (ttl : ℤ) (t : Time) (calls : List Call)
      → is_blank a.mandate_id ≡ false
      → is_blank a.transaction_id ≡ false
      → NoneLike a calls
      → (check_and_record digest a ttl (some t) t (run (record { records = [] }) calls)).0.valid
        ≡ true
  unfolding check_and_record lookup
  first_use_accepted a ttl t calls m x h =
      let e = run (record { records = [] }) calls in
      let unseen = others_keep a calls (record { records = [] }) h in ground arith
