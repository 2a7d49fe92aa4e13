-- ===== src/Web/MandateStatus/NextCharge.antt =====
-- The next date at which a charge can succeed.
use stellar_journey.Base.{
  ℕ, suc, ◌+◌, ◌*◌, ◌≤◌, ◌<◌, ◌≡◌, ◌⊎◌, ◌↔◌, ◌∙◌, inl, inr, subst, sym, refl, not, ◌&&◌, Option,
  none, some, arith, le→leb, leb→le, leb, ltb, ◌==◌, if◌then◌else◌, Bool-cases,
}
use stellar_journey.Client.Mandate.{
  MandateStatus, active, paused, revoked, completed, expired, Mandate,
}
use stellar_journey.Web.MandateStatus.{
  usage_of, NextDate, date, no_date, division_error, is_active, probe_amount, interval_floor,
  first_candidate, search_rounds, compute_next_eligible_charge_date,
}
use stellar_journey.Web.MandateStatus.Period.{
  period_index, usage_lem, boundary, before-boundary, same_period, period_index-boundary,
}

-- The amount that is probed fits what is left of the period that holds an instant.
abbrev pub Fits : Mandate → ℕ → Type 0
Fits mandate at =
    (usage_of mandate (period_index mandate at)).collected + probe_amount mandate
    ≤ mandate.max_per_period

-- The conditions on a charge at an instant: the mandate is active, has a charge left, has begun and
-- not expired, its last charge is long enough ago, and the amount fits.
pub record CanCharge (mandate : Mandate) (at : ℕ) : Type 0 where
  pub status : mandate.status ≡ active
  pub count :
      (mandate.max_successful_charges ≡ 0)
      ⊎ (mandate.successful_charges < mandate.max_successful_charges)
  pub begun : mandate.start_at ≤ at
  pub interval :
      (last : ℕ) → mandate.last_charged_at ≡ some last → last + mandate.min_interval_seconds ≤ at
  pub unexpired : at < mandate.expires_at
  pub fits : Fits mandate at

-- The answer is the least instant at which a charge can succeed; without one there is none; and
-- nothing is thrown.
abbrev pub IsNext : Mandate → NextDate → Type 0
IsNext mandate (date d) = CanCharge mandate d × ((t : ℕ) → t < d → CanCharge mandate t → ⊥)
IsNext mandate no_date = (t : ℕ) → CanCharge mandate t → ⊥
IsNext mandate division_error = ⊥

module _ (mandate : Mandate) where
  first_candidate_iff :
      (t : ℕ)
      → (first_candidate mandate ≤ t) ↔ (
          (mandate.start_at ≤ t)
          × ((last : ℕ)
              → mandate.last_charged_at ≡ some last
              → last + mandate.min_interval_seconds ≤ t))
  first_candidate_iff t = of_last mandate.last_charged_at
    where
      of_last :
          (last_charged_at : Option ℕ)
          → ((if ltb mandate.start_at (interval_floor mandate last_charged_at)
                then interval_floor mandate last_charged_at
                else mandate.start_at)
              ≤ t)
            ↔ ((mandate.start_at ≤ t)
                × ((last : ℕ)
                    → last_charged_at ≡ some last
                    → last + mandate.min_interval_seconds ≤ t))
      of_last none = (λ h. (ground arith, λ last e. absurd cc), λ h. ground arith)
      of_last (some l) =
          (λ h. (ground arith, λ last e. ground arith), λ h. ground (arith, h.1 l refl))

module _ (mandate : Mandate) (positive : 0 < mandate.period_seconds)
    (payable : probe_amount mandate ≤ mandate.max_per_period) where
  -- A period in which the amount does not fit is the one that the mandate has stored, so it fits the
  -- next one.
  next-Fits :
      (at : ℕ) → (Fits mandate at → ⊥) → Fits mandate (boundary mandate (period_index mandate at))
  next-Fits at full =
      subst (λ i. (usage_of mandate i).collected + probe_amount mandate ≤ mandate.max_per_period)
        (sym (period_index-boundary mandate positive (period_index mandate at)))
        (omega
          (arith, payable, empty (period_index mandate at) (stored (period_index mandate at) full)))
    where
      stored :
          (i : ℕ)
          → ((usage_of mandate i).collected + probe_amount mandate ≤ mandate.max_per_period → ⊥)
          → mandate.start_at + i * mandate.period_seconds ≡ mandate.current_period_start
      stored i full = ground arith

      empty :
          (i : ℕ)
          → mandate.start_at + i * mandate.period_seconds ≡ mandate.current_period_start
          → (usage_of mandate (suc i)).collected ≡ 0
      empty i same = ground arith

  round_lem :
      (rounds candidate : ℕ)
      → mandate.start_at ≤ candidate
      → search_rounds mandate (suc rounds) candidate ≡ (
          if leb mandate.expires_at candidate
          then no_date
          else (if leb
                ((usage_of mandate (period_index mandate candidate)).collected
                  + probe_amount mandate)
                mandate.max_per_period
              then date candidate
              else search_rounds mandate rounds
                  (boundary mandate (period_index mandate candidate))))
  unfolding search_rounds
  round_lem rounds candidate late = rw (usage_lem mandate candidate positive late)

  module _ (is_active_now : mandate.status ≡ active)
      (has_charge : (mandate.max_successful_charges ≡ 0)
        ⊎ (mandate.successful_charges < mandate.max_successful_charges)) where
    abbrev first : ℕ
    first = first_candidate mandate

    abbrev next : ℕ
    next = boundary mandate (period_index mandate first)

    not_earlier : (t : ℕ) → CanCharge mandate t → first ≤ t
    not_earlier t can = (first_candidate_iff mandate t).1 (can.begun, can.interval)

    can_charge : (t : ℕ) → first ≤ t → t < mandate.expires_at → Fits mandate t → CanCharge mandate t
    can_charge t late before fits = record {
      status = is_active_now;
      count = has_charge;
      begun = ((first_candidate_iff mandate t).0 late).0;
      interval = ((first_candidate_iff mandate t).0 late).1;
      unexpired = before;
      fits = fits;
    }

    begun : mandate.start_at ≤ first
    begun = ((first_candidate_iff mandate first).0 (omega arith)).0

    -- Where the amount does not fit the first candidate's period, no instant before its end will do.
    not_before : (Fits mandate first → ⊥) → (t : ℕ) → CanCharge mandate t → next ≤ t
    not_before full t can = elim (Bool-cases (leb next t)) [
      | inl after ↦ ground arith
      | inr before ↦ absurd (
          full (
            subst
              (λ i. (usage_of mandate i).collected + probe_amount mandate ≤ mandate.max_per_period)
              (same_period mandate positive first t begun (not_earlier t can) (ground arith))
              can.fits))
    ]

    -- The second round, at the boundary of the full period.
    second_round : (Fits mandate first → ⊥) → IsNext mandate (search_rounds mandate 3 next)
    second_round full = elim (Bool-cases (leb mandate.expires_at next)) [
      | inl over ↦
          rw (round_lem 2 next late, over)
            (λ t can. ground (arith, not_before full t can, can.unexpired))
      | inr open_still ↦
          rw (round_lem 2 next late, open_still, le→leb _ _ (next-Fits first full))
            (
              can_charge next (ground (arith, before-boundary mandate positive first begun))
                  (ground arith) (next-Fits first full),
              λ t before can. ground (arith, not_before full t can),
            )
    ]
      where
        late : mandate.start_at ≤ next
        late = ground (arith, before-boundary mandate positive first begun, begun)

    searched : IsNext mandate (search_rounds mandate 4 first)
    searched = elim (Bool-cases (leb mandate.expires_at first)) [
      | inl over ↦
          rw (round_lem 3 first begun, over)
            (λ t can. ground (arith, not_earlier t can, can.unexpired))
      | inr open_still ↦
          elim (Bool-cases (
            leb ((usage_of mandate (period_index mandate first)).collected + probe_amount mandate)
              mandate.max_per_period)) [
                | inl fits ↦
                    rw (round_lem 3 first begun, open_still, fits)
                      (
                        can_charge first (omega arith) (ground arith) (leb→le _ _ fits),
                        λ t before can. ground (arith, not_earlier t can),
                      )
                | inr full ↦
                    rw (round_lem 3 first begun, open_still, full) (second_round (ground arith))
              ]
    ]

  -- For periods of some length and a probed amount that a period allows, the date is the least
  -- instant at which every condition on a charge holds, the interval being one of them only where
  -- there was a last charge, no date means that there is no such instant, and nothing is thrown.
  pub compute_next_eligible_charge_date-IsNext :
      IsNext mandate (compute_next_eligible_charge_date mandate)
  unfolding compute_next_eligible_charge_date
  compute_next_eligible_charge_date-IsNext = of_status mandate.status refl
    where
      of_active :
          mandate.status ≡ active
          → IsNext mandate (
              if not (mandate.max_successful_charges == 0)
                && leb mandate.max_successful_charges mandate.successful_charges
              then no_date
              else search_rounds mandate 4 (first_candidate mandate))
      of_active now =
          elim (Bool-cases (
            not (mandate.max_successful_charges == 0)
            && leb mandate.max_successful_charges mandate.successful_charges)) [
              | inl spent ↦ rw spent (λ t can. ground (arith, can.count))
              | inr left ↦ rw left (searched now (ground arith))
            ]

      of_status :
          (s : MandateStatus)
          → mandate.status ≡ s
          → IsNext mandate (
              if not (is_active s)
              then no_date
              else (if not (mandate.max_successful_charges == 0)
                    && leb mandate.max_successful_charges mandate.successful_charges
                  then no_date
                  else search_rounds mandate 4 (first_candidate mandate)))
      of_status active e = of_active e
      of_status paused e = λ t can. cc (sym can.status ∙ e)
      of_status revoked e = λ t can. cc (sym can.status ∙ e)
      of_status completed e = λ t can. cc (sym can.status ∙ e)
      of_status expired e = λ t can. cc (sym can.status ∙ e)
