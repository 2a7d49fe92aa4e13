-- ===== src/Api/Auth/Sessions/Once.antt =====
-- A challenge opens one session at most.
use stellar_journey.Base.{
  ℕ, ◌≤◌, ◌<◌, ◌≡◌, ◌∙◌, sym, ap, subst, refl, String, true, false, Option, none, some, ◌∷◌, arith,
  eq_iff, find_where, count_where, update_where, find_where-update, count_where_of_unique,
  found_passes,
}
use stellar_journey.Base.Effect.{returned, thrown}
use stellar_journey.Store.{Fault}
use stellar_journey.Api.Auth.Tables.{Challenge, AuthStore, AuthCrypto}
use stellar_journey.Api.Auth.ApiKeys.{has_wallet}
use stellar_journey.Api.Auth.Sessions.{
  Completion, CompletedChallenge, is_challenge, is_open, is_set, use_challenge, challenge_used,
  refusal, new_session, completed_challenge, open_session, after_checks,
  complete_merchant_auth_challenge,
}

module _ (crypto : AuthCrypto) (raw session_id : String) (input : Completion) (w : AuthStore)
    (challenge : Challenge)
    (unique : count_where (is_challenge input.challenge_id) w.challenges ≤ 1)
    (found : find_where (is_challenge input.challenge_id) w.challenges ≡ some challenge) where
  -- The store after a completion that passes every check.
  abbrev pub opened : AuthStore
  opened = record w {
    challenges =
        update_where (is_open input.challenge_id input.now) (use_challenge input.now) w.challenges;
    sessions =
        new_session crypto raw session_id input
          (find_where (has_wallet input.signer_address) w.accounts)
        ∷ w.sessions;
  }

  -- What the checks ask of a challenge that passes them.
  pub record IsAccepted : Type 0 where
    pub unused : challenge.used_at ≡ none
    pub unexpired : input.now < challenge.expires_at
    pub wallet : challenge.wallet_address ≡ input.signer_address
    pub message : challenge.message_hash ≡ crypto.message_digest input.message
    pub signature :
        crypto.verifies input.signer_address (crypto.message_digest input.message) input.signature
        ≡ true

  refusal-IsAccepted : refusal crypto input challenge ≡ none → IsAccepted
  unfolding refusal
  refusal-IsAccepted e = record {
    unused = unset challenge.used_at (ground arith);
    unexpired = ground arith;
    wallet = ground (arith, eq_iff challenge.wallet_address input.signer_address);
    message = ground (arith, eq_iff challenge.message_hash (crypto.message_digest input.message));
    signature = ground arith;
  }
    where
      unset : (used : Option ℕ) → is_set used ≡ false → used ≡ none
      unset none h = refl
      unset (some at) h = absurd cc

  is_open_now : IsAccepted → is_open input.challenge_id input.now challenge ≡ true
  is_open_now a = ground (
    arith,
    found_passes (is_challenge input.challenge_id) w.challenges challenge found,
    ap is_set a.unused,
    a.unexpired,
  )

  open_lem :
      IsAccepted
      → open_session crypto raw session_id input w ≡ (
        returned (
            completed_challenge crypto raw input
              (find_where (has_wallet input.signer_address) w.accounts)),
        opened,
      )
  unfolding open_session
  open_lem a = rw one
    where
      one : count_where (is_open input.challenge_id input.now) w.challenges ≡ 1
      one =
          count_where_of_unique (is_open input.challenge_id input.now)
            (is_challenge input.challenge_id) (λ r h. ground arith) w.challenges challenge unique
            found
          ∙ rw (is_open_now a)

  completed_lem :
      complete_merchant_auth_challenge crypto raw session_id input w
      ≡ after_checks crypto raw session_id input (refusal crypto input challenge) w
  unfolding complete_merchant_auth_challenge
  completed_lem = rw found

  passed :
      (verdict : Option Fault) (c : CompletedChallenge)
      → (after_checks crypto raw session_id input verdict w).0 ≡ returned c
      → verdict ≡ none
  unfolding after_checks
  passed none c e = refl
  passed (some fault) c e = absurd cc

  accepted :
      (c : CompletedChallenge)
      → (complete_merchant_auth_challenge crypto raw session_id input w).0 ≡ returned c
      → refusal crypto input challenge ≡ none
  accepted c e = passed (refusal crypto input challenge) c (sym (ap (λ r. r.0) completed_lem) ∙ e)

  opens :
      (c : CompletedChallenge)
      → (complete_merchant_auth_challenge crypto raw session_id input w).0 ≡ returned c
      → (complete_merchant_auth_challenge crypto raw session_id input w).1 ≡ opened
  unfolding after_checks
  opens c e =
      ap (λ r. r.1)
        (completed_lem
          ∙ ap (λ verdict. after_checks crypto raw session_id input verdict w) (accepted c e)
          ∙ open_lem (refusal-IsAccepted (accepted c e)))

  -- A challenge that was used is there, used.
  used_up :
      IsAccepted
      → (again : Completion) → again.challenge_id ≡ input.challenge_id
      → find_where (is_challenge again.challenge_id) opened.challenges
        ≡ some (use_challenge input.now challenge)
  used_up a again same =
      subst
        (λ id.
          find_where (is_challenge id) opened.challenges ≡ some (use_challenge input.now challenge))
        (sym same)
        (find_where-update (is_open input.challenge_id input.now) (is_challenge input.challenge_id)
            (use_challenge input.now) (λ r. refl) w.challenges challenge found
          ∙ rw (is_open_now a))

  refused_again :
      IsAccepted
      → (raw' session_id' : String) (again : Completion) → again.challenge_id ≡ input.challenge_id
      → complete_merchant_auth_challenge crypto raw' session_id' again opened
        ≡ (thrown challenge_used, opened)
  unfolding complete_merchant_auth_challenge refusal after_checks
  refused_again a raw' session_id' again same = rw (used_up a again same)

  -- Where challenge keys are unique, a completion that returns was given an unused, unexpired
  -- challenge of the signer's wallet with its own message and a valid signature, and every later
  -- completion of the same challenge, whatever it sends, is refused as used and changes nothing.
  pub complete_merchant_auth_challenge_once :
      (c : CompletedChallenge) (raw' session_id' : String) (again : Completion)
      → (complete_merchant_auth_challenge crypto raw session_id input w).0 ≡ returned c
      → again.challenge_id ≡ input.challenge_id
      → let later = (complete_merchant_auth_challenge crypto raw session_id input w).1 in
        IsAccepted
        × (complete_merchant_auth_challenge crypto raw' session_id' again later
            ≡ (thrown challenge_used, later))
  complete_merchant_auth_challenge_once c raw' session_id' again e same = (
    refusal-IsAccepted (accepted c e),
    rw (opens c e) (refused_again (refusal-IsAccepted (accepted c e)) raw' session_id' again same),
  )
