-- ===== src/Web/Display.antt =====
-- apps/web/src/lib/errors.ts: an error as it is shown.
use stellar_journey.Base.{String, Bool}

pub record DisplayError : Type 0 where
  pub message : String
  pub code : String
  pub retryable : Bool
