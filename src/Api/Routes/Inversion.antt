-- ===== src/Api/Routes/Inversion.antt =====
-- What a handler of apps/api/src/routes that returned says of its steps.
use stellar_journey.Base.{◌≡◌, refl, String, Option, none, some, List, arith}
use stellar_journey.Base.Effect.{Result, returned, thrown, and_then}
use stellar_journey.Client.Mandate.{Mandate}
use stellar_journey.Store.{World, Fault, Job}
use stellar_journey.Api.Idempotency.{IdempotencyKey, lift_result}
use stellar_journey.Api.Routes.{
  MandateAnswer, mandate_found, mandate_read_error, mandate_unavailable, mandate_or,
  require_idempotency_key,
}

module _ {A : Type 0} where
  pub mandate_or_inv :
      (missing : Fault) (k : Mandate → Job A) (answer : MandateAnswer) (w w' : World) (c : A)
      → and_then k (mandate_or missing answer w) ≡ (returned c, w')
      → (mandate : Mandate) × (answer ≡ mandate_found mandate) × (k mandate w ≡ (returned c, w'))
  mandate_or_inv missing k (mandate_found mandate) w w' c h = (mandate, refl, h)
  mandate_or_inv missing k mandate_read_error w w' c h = absurd cc
  mandate_or_inv missing k mandate_unavailable w w' c h = absurd cc

  pub lift_inv :
      (rows rows' : List IdempotencyKey) (r : Result Fault A × World) (c : A) (w : World)
      → lift_result rows r ≡ (returned c, (w, rows'))
      → (r ≡ (returned c, w)) × (rows' ≡ rows)
  lift_inv rows rows' (returned a, v) c w h = (cc h, cc h)
  lift_inv rows rows' (thrown e, v) c w h = absurd cc

pub key_inv :
    (header : Option String) (v v' : World × List IdempotencyKey) (key : String)
    → require_idempotency_key header v ≡ (returned key, v')
    → v' ≡ v
unfolding require_idempotency_key
key_inv none v v' key h = absurd cc
key_inv (some header) v v' key h = ground arith
