-- ===== src/Webhook/Settled.antt =====
-- What any number of deliveries leaves alone.
use mandate_gateway.Base.{String, ◌≡◌, ◌∙◌, inl, inr, true, some, List, [], ◌∷◌, arith}
use mandate_gateway.Dict.{lookup}
use mandate_gateway.Clock.{Time}
use mandate_gateway.Webhook.{TransactionRow, Database}
use mandate_gateway.Webhook.Engine.{Delivery, Codec, ingest, is_final_for_provider}
use mandate_gateway.Webhook.Authentic.{delivery_effect}
use mandate_gateway.Webhook.Effect.{Moves}

module _ {Raw : Type 0} (c : Codec Raw) where
  -- the requests that reach the route, one after the other, each with the time of its processing
  unfoldable pub ingest_all : List (Delivery Raw × Time) → Database → Database
  ingest_all [] db = db
  ingest_all ((d, now) ∷ ds) db = ingest_all ds (ingest c d now db).1

  module _ (key : String) (row : TransactionRow)
      (settled : is_final_for_provider row.state ≡ true) where
    settled_once :
        (d : Delivery Raw) (now : Time) (db : Database)
        → lookup key db.transactions ≡ some row
        → lookup key (ingest c d now db).1.transactions ≡ some row
    unfolding Moves
    settled_once d now db here = elim (delivery_effect c d now db key) [
      | inl same ↦ same ∙ here
      | inr
            (
              p, r, target, signed, parsed, timely, fresh, kept, names, found, merchant, live,
              typed, unsettled, legal, moved,
            ) ↦
          ground (arith, here, found, unsettled, settled)
    ]

    -- A transaction that is terminal, committed or rolled back stays exactly as it is stored under
    -- any sequence of deliveries to the webhook route.
    pub settled_stays :
        (ds : List (Delivery Raw × Time)) (db : Database)
        → lookup key db.transactions ≡ some row
        → lookup key (ingest_all ds db).transactions ≡ some row
    unfolding ingest_all
    settled_stays [] db here = here
    settled_stays ((d, now) ∷ ds) db here =
        settled_stays ds (ingest c d now db).1 (settled_once d now db here)
