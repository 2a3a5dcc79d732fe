-- ===== src/StepUp/Zones.antt =====
-- `classify_step_up_zone` against the three zones as inequalities, with no division.
use mandate_gateway.Base.{ℕ, ◌+◌, ◌*◌, ◌<◌, ◌≡◌, ◌↔◌, arith, Result, ok, err, leb, if◌then◌else◌}
use mandate_gateway.Int.{ℤ, pos, ◌+ℤ◌, ◌*ℤ◌, ◌//◌, ◌≤ℤ◌}
use mandate_gateway.Types.{StepUpZone}
use mandate_gateway.StepUp.{StepUpError, StepUpResult, classify_step_up_zone, max_allowed_paise}

abbrev pub zone_of : Result StepUpError StepUpResult → Result StepUpError StepUpZone
zone_of (ok r) = ok r.zone
zone_of (err x) = err x

-- Zone A up to the cap, zone B while the excess is at most `percent` hundredths of the cap, else C.
abbrev pub zone : ℕ → ℕ → ℕ → StepUpZone
zone total cap percent =
    if leb total cap
    then StepUpZone.auto_execute
    else if leb (100 * total) (100 * cap + cap * percent)
    then StepUpZone.step_up_required
    else StepUpZone.hard_reject

-- For a positive cap and no negative total or percentage the code computes the zones of the
-- specification; the rounding down of the threshold loses nothing.
pub classify-zone :
    (total cap percent : ℕ)
    → 0 < cap
    → zone_of (classify_step_up_zone (pos total) (pos cap) (pos percent))
      ≡ ok (zone total cap percent)
unfolding classify_step_up_zone max_allowed_paise ◌//◌ ◌*ℤ◌ ◌+ℤ◌
classify-zone total cap percent h = ground arith

-- The code raises a division by zero exactly for a zero cap and a positive total.
pub zero_cap_raises :
    (total cap percent : ℤ)
    → (classify_step_up_zone total cap percent ≡ err StepUpError.zero_division)
      ↔ ((cap ≡ pos 0) × (pos 1 ≤ℤ total))
unfolding classify_step_up_zone
zero_cap_raises total cap percent = (λ h. (ground arith, ground arith), λ h. ground arith)
