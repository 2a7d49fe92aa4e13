-- ===== src/Web/Checkout.antt =====
-- apps/web/src/lib/checkout-state.ts: the reducer of the checkout page.
use stellar_journey.Base.{
  String, ◌≡◌, ◌≢◌, ◌↔◌, refl, Option, none, some, List, [], ◌∷◌, arith, Bool, true, false,
  all_where,
}
use stellar_journey.Web.Display.{DisplayError}

pub data CheckoutPhase : Type 0 where
  idle connecting ready creating_mandate approving linking complete failed : CheckoutPhase

pub data CheckoutFailedStep : Type 0 where
  connect create_mandate approve link : CheckoutFailedStep

-- A field that the state leaves out is `none`; the phase `"error"` is `failed`.
pub record CheckoutState : Type 0 where
  pub phase : CheckoutPhase
  pub address : Option String
  pub mandate_id : Option String
  pub failed_step : Option CheckoutFailedStep
  pub error : Option DisplayError
  pub link_warning : Option DisplayError

pub data CheckoutAction : Type 0 where
  connect_start : CheckoutAction
  connect_success : String → CheckoutAction
  connect_error : DisplayError → CheckoutAction
  create_mandate_start : CheckoutAction
  create_mandate_success : String → CheckoutAction
  create_mandate_error : DisplayError → CheckoutAction
  approve_start approve_success : CheckoutAction
  approve_error : DisplayError → CheckoutAction
  link_start link_success : CheckoutAction
  link_error : DisplayError → CheckoutAction

abbrev pub initial_checkout_state : CheckoutState
initial_checkout_state = record {
  phase = idle;
  address = none;
  mandate_id = none;
  failed_step = none;
  error = none;
  link_warning = none;
}

abbrev pub without_error : CheckoutState → CheckoutState
without_error s = record s { failed_step = none; error = none }

unfoldable pub checkout_reducer : CheckoutState → CheckoutAction → CheckoutState
checkout_reducer s connect_start = record initial_checkout_state { phase = connecting }
checkout_reducer s (connect_success address) = record initial_checkout_state {
  phase = ready;
  address = some address;
}
checkout_reducer s (connect_error e) = record initial_checkout_state {
  phase = failed;
  failed_step = some connect;
  error = some e;
}
checkout_reducer s create_mandate_start = record (without_error s) { phase = creating_mandate }
checkout_reducer s (create_mandate_success id) = record (without_error s) {
  phase = approving;
  mandate_id = some id;
}
checkout_reducer s (create_mandate_error e) = record s {
  phase = failed;
  failed_step = some create_mandate;
  error = some e;
}
checkout_reducer s approve_start = record (without_error s) { phase = approving }
checkout_reducer s approve_success = record (without_error s) { phase = linking }
checkout_reducer s (approve_error e) = record s {
  phase = failed;
  failed_step = some approve;
  error = some e;
}
checkout_reducer s link_start = record (without_error s) { phase = linking }
checkout_reducer s link_success = record (without_error s) { phase = complete }
checkout_reducer s (link_error e) = record (without_error s) {
  phase = complete;
  link_warning = some e;
}

-- The page's state after a sequence of actions.
unfoldable pub run_checkout : CheckoutState → List CheckoutAction → CheckoutState
run_checkout s [] = s
run_checkout s (a ∷ actions) = run_checkout (checkout_reducer s a) actions

-- An error is shown, and a step blamed for it, in the phase `failed` and in no other.
abbrev pub IsConsistent : CheckoutState → Type 0
IsConsistent s =
    ((s.phase ≡ failed) ↔ (s.error ≢ none)) × ((s.error ≡ none) ↔ (s.failed_step ≡ none))

checkout_reducer-IsConsistent :
    (s : CheckoutState) (a : CheckoutAction) → IsConsistent s → IsConsistent (checkout_reducer s a)
unfolding checkout_reducer
checkout_reducer-IsConsistent s connect_start h = ground arith
checkout_reducer-IsConsistent s (connect_success address) h = ground arith
checkout_reducer-IsConsistent s (connect_error e) h = ground arith
checkout_reducer-IsConsistent s create_mandate_start h = ground arith
checkout_reducer-IsConsistent s (create_mandate_success id) h = ground arith
checkout_reducer-IsConsistent s (create_mandate_error e) h = ground arith
checkout_reducer-IsConsistent s approve_start h = ground arith
checkout_reducer-IsConsistent s approve_success h = ground arith
checkout_reducer-IsConsistent s (approve_error e) h = ground arith
checkout_reducer-IsConsistent s link_start h = ground arith
checkout_reducer-IsConsistent s link_success h = ground arith
checkout_reducer-IsConsistent s (link_error e) h = ground arith

-- From a state of the checkout that shows an error in the failed phase and in no other, and
-- blames a step exactly when it shows an error, every sequence of actions leads to such a state.
pub run_checkout-IsConsistent :
    (s : CheckoutState) (actions : List CheckoutAction)
    → IsConsistent s
    → IsConsistent (run_checkout s actions)
unfolding run_checkout
run_checkout-IsConsistent s [] h = h
run_checkout-IsConsistent s (a ∷ actions) h =
    run_checkout-IsConsistent (checkout_reducer s a) actions (checkout_reducer-IsConsistent s a h)

-- The actions that do not begin the checkout again, or create another mandate.
abbrev pub keeps_mandate : CheckoutAction → Bool
keeps_mandate connect_start = false
keeps_mandate (connect_success address) = false
keeps_mandate (connect_error e) = false
keeps_mandate (create_mandate_success id) = false
keeps_mandate _ = true

checkout_reducer-mandate_id :
    (s : CheckoutState) (a : CheckoutAction)
    → keeps_mandate a ≡ true
    → (checkout_reducer s a).mandate_id ≡ s.mandate_id
unfolding checkout_reducer
checkout_reducer-mandate_id s connect_start h = ground arith
checkout_reducer-mandate_id s (connect_success address) h = ground arith
checkout_reducer-mandate_id s (connect_error e) h = ground arith
checkout_reducer-mandate_id s (create_mandate_success id) h = ground arith
checkout_reducer-mandate_id s create_mandate_start h = refl
checkout_reducer-mandate_id s (create_mandate_error e) h = refl
checkout_reducer-mandate_id s approve_start h = refl
checkout_reducer-mandate_id s approve_success h = refl
checkout_reducer-mandate_id s (approve_error e) h = refl
checkout_reducer-mandate_id s link_start h = refl
checkout_reducer-mandate_id s link_success h = refl
checkout_reducer-mandate_id s (link_error e) h = refl

kept_mandate :
    (s : CheckoutState) (actions : List CheckoutAction)
    → all_where keeps_mandate actions ≡ true
    → (run_checkout s actions).mandate_id ≡ s.mandate_id
unfolding run_checkout all_where
kept_mandate s [] h = refl
kept_mandate s (a ∷ actions) h =
    ground (arith, kept_mandate (checkout_reducer s a) actions, checkout_reducer-mandate_id s a)

-- A mandate that was created stays in the checkout's state through every sequence of later
-- actions, errors included, that neither connects again nor creates another mandate.
pub created_mandate_kept :
    (s : CheckoutState) (id : String) (actions : List CheckoutAction)
    → all_where keeps_mandate actions ≡ true
    → (run_checkout s (create_mandate_success id ∷ actions)).mandate_id ≡ some id
unfolding run_checkout checkout_reducer
created_mandate_kept s id actions h = kept_mandate _ actions h
