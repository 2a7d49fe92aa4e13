-- ===== src/Relayer/Tests/Scheduling.antt =====
-- Ticks of the schedulers on small tables, with a queue that is a list of ids.
use stellar_journey.Base.{◌≡◌, ◌↔◌, ◌⊎◌, String, List, [], ◌∷◌}
use stellar_journey.Store.{World}
use stellar_journey.Api.ChargeStatus.{processing}
use stellar_journey.Relayer.Tests.{charge_at, delivery, world_of}

-- An id is on a queue.
abbrev pub Queued : String → List String → Type 0
Queued id [] = ⊥
Queued id (x ∷ q) = (x ≡ id) ⊎ Queued id q

abbrev pub add : String → List String → List String
add id q = id ∷ q

pub adds :
    (id other : String) (q : List String)
    → Queued other (add id q) ↔ ((id ≡ other) ⊎ Queued other q)
adds id other q = (λ h. h, λ h. h)

abbrev stale_world : World
stale_world = world_of (charge_at processing 1) delivery
