-- ===== src/Mandate/Lifecycle.antt =====
-- The lifecycle of a mandate (apps/api/domain/mandate_lifecycle.py, `transition_mandate` and the
-- functions that call it), and sequences of attempts to change the status.
use mandate_gateway.Base.{
  Bool, true, false, not, List, [], ◌∷◌, if◌then◌else◌, Result, ok, err, ◌≡◌, refl, arith,
}
use mandate_gateway.Types.{MandateStatus, is_terminal_status}
use mandate_gateway.Mandate.{BuyerMandate, MandateError}

-- `target in _MANDATE_LEGAL_TRANSITIONS.get(status, frozenset())`
unfoldable pub legal_next : MandateStatus → MandateStatus → Bool
legal_next MandateStatus.draft MandateStatus.active = true
legal_next MandateStatus.active MandateStatus.suspended = true
legal_next MandateStatus.active MandateStatus.revoked = true
legal_next MandateStatus.active MandateStatus.expired = true
legal_next MandateStatus.suspended MandateStatus.active = true
legal_next MandateStatus.suspended MandateStatus.revoked = true
legal_next MandateStatus.suspended MandateStatus.expired = true
legal_next _ _ = false

unfoldable pub transition_mandate : BuyerMandate → MandateStatus → Result MandateError BuyerMandate
unfolding legal_next
transition_mandate m target =
    if not (legal_next m.status target)
    then err MandateError.illegal_transition
    else ok (record m { status = target })

abbrev pub activate_mandate : BuyerMandate → Result MandateError BuyerMandate
activate_mandate m = transition_mandate m MandateStatus.active

abbrev pub suspend_mandate : BuyerMandate → Result MandateError BuyerMandate
suspend_mandate m = transition_mandate m MandateStatus.suspended

abbrev pub resume_mandate : BuyerMandate → Result MandateError BuyerMandate
resume_mandate m = transition_mandate m MandateStatus.active

abbrev pub revoke_mandate : BuyerMandate → Result MandateError BuyerMandate
revoke_mandate m = transition_mandate m MandateStatus.revoked

abbrev pub expire_mandate : BuyerMandate → Result MandateError BuyerMandate
expire_mandate m = transition_mandate m MandateStatus.expired

-- the mandate that a caller keeps: the new one, or the old one if the attempt raised
abbrev pub kept : BuyerMandate → Result MandateError BuyerMandate → BuyerMandate
kept m (ok m') = m'
kept m (err x) = m

-- the mandate after any attempts
unfoldable pub attempts : BuyerMandate → List MandateStatus → BuyerMandate
attempts m [] = m
attempts m (target ∷ targets) = attempts (kept m (transition_mandate m target)) targets

no_way_out :
    (m : BuyerMandate) (target : MandateStatus)
    → is_terminal_status m.status ≡ true
    → kept m (transition_mandate m target) ≡ m
unfolding transition_mandate is_terminal_status
no_way_out m target h = ground arith

-- A mandate in a terminal status stays as it is whatever is attempted.
pub attempts-terminal :
    (m : BuyerMandate) (targets : List MandateStatus)
    → is_terminal_status m.status ≡ true
    → attempts m targets ≡ m
unfolding attempts
attempts-terminal m [] h = refl
attempts-terminal m (target ∷ targets) h =
    rw (no_way_out m target h) (attempts-terminal m targets h)
