-- ===== src/Web/MandateStatus/Controls.antt =====
-- The status and the controls that the dashboard shows (apps/web/src/lib/mandate-status.ts), beside the
-- precheck of the API (apps/api/src/chain/precheck.ts).
use stellar_journey.Base.{ℕ, ◌<◌, ◌≡◌, ◌∙◌, ap, true, false, arith}
use stellar_journey.Client.Mandate.{active, Mandate}
use stellar_journey.Api.Precheck.{clear, precheck_charge}
use stellar_journey.Api.Precheck.Laws.{precheck_charge_iff}
use stellar_journey.Web.MandateStatus.{derive_effective_status, derive_control_availability}

unexpired-effective :
    (mandate : Mandate) (at : ℕ)
    → at < mandate.expires_at
    → derive_effective_status mandate at ≡ mandate.status
unfolding derive_effective_status
unexpired-effective mandate at before = ground arith

-- At an instant at which the precheck lets a charge through, the dashboard shows the mandate as
-- active and offers to pause it and to cancel it, not to resume it.
pub precheck-offered :
    (mandate : Mandate) (amount at : ℕ)
    → precheck_charge mandate amount at ≡ clear
    → (derive_effective_status mandate at ≡ active)
      × (derive_control_availability (derive_effective_status mandate at)
          ≡ record { can_pause = true; can_resume = false; can_cancel_autopay = true })
unfolding derive_control_availability
precheck-offered mandate amount at is_clear =
    let c = (precheck_charge_iff mandate amount at).0 is_clear in
    let shown = unexpired-effective mandate at c.unexpired ∙ c.status in
    (shown, ap derive_control_availability shown)
