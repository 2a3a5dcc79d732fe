-- ===== src/StepUp/Tests.antt =====
-- Step-up at concrete inputs: a cap of 1000 paise, ten per cent, and a challenge for 1100.
use mandate_gateway.Base.{◌≡◌, ◌⊎◌, ◌↔◌, refl, none, some, arith, List, [], ◌∷◌, ok, err}
use mandate_gateway.Int.{pos, ◌+ℤ◌, ◌-ℤ◌, ◌*ℤ◌, ◌//◌, ◌≤ℤ◌}
use mandate_gateway.Text.{strip, lower}
use mandate_gateway.Dict.{lookup, insert}
use mandate_gateway.Clock.{add_seconds}
use mandate_gateway.StepUp.{
  StepUpError, StepUpContext, classify_step_up_zone, max_allowed_paise,
  evaluate_authorization_step_up, create_challenge, record_human_confirmation,
}
use mandate_gateway.StepUp.Zones.{zone_of, zone, classify-zone, zero_cap_raises}
use mandate_gateway.StepUp.Approval.{Call, step, run, Confirms, allowed_needs_confirmation}

classify-zone_example :
    zone_of (classify_step_up_zone (pos 1100) (pos 1000) (pos 10)) ≡ ok (zone 1100 1000 10)
classify-zone_example = classify-zone 1100 1000 10 (ground arith)

zero_cap_raises_example :
    (classify_step_up_zone (pos 500) (pos 0) (pos 10) ≡ err StepUpError.zero_division)
    ↔ ((pos 0 ≡ pos 0) × (pos 1 ≤ℤ pos 500))
zero_cap_raises_example = zero_cap_raises (pos 500) (pos 0) (pos 10)

abbrev calls : List Call
calls =
    Call.creates "mandate" "tx" "ab" (pos 1000) (pos 1100) "shop" (pos 60) none "c-1" (pos 5)
    ∷ Call.confirms
        (record {
          challenge_id = "c-1";
          mandate_id = "mandate";
          transaction_id = "tx";
          cart_hash = "AB";
          proposed_paise = pos 1100;
          merchant_id = "shop";
          confirmed_by = "ann";
        })
        none (pos 6)
    ∷ []

abbrev context : StepUpContext
context = record {
  challenge_id = some "c-1";
  mandate_id = some "mandate";
  transaction_id = some "tx";
  cart_hash = none;
  merchant_id = some "shop";
}

allowed_needs_confirmation_example :
    (pos 1100 ≤ℤ pos 1000) ⊎ Confirms calls context (pos 1100) (pos 7)
unfolding evaluate_authorization_step_up classify_step_up_zone max_allowed_paise run step
    create_challenge record_human_confirmation lookup insert strip lower add_seconds ◌+ℤ◌ ◌*ℤ◌ ◌//◌
    ◌-ℤ◌
allowed_needs_confirmation_example =
    allowed_needs_confirmation calls (pos 1100) (pos 1000) (pos 10) context none (pos 7) refl refl
