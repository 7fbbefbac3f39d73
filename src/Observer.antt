-- ===== src/Observer.antt =====
-- include/ris/riobserver.h: the calls that an `IRIObserver` receives. A component that notifies an
-- observer returns the list of its calls, in order; a component that is an observer has a handler
-- for each, and `handle` in its module dispatches on them. `Status` is the result of the many
-- functions that return 0 or -1.
use ris.Base.{ℕ, String, ◌≡◌, refl, ◌⊎◌, inl, inr}
use ris.RiTypes.Region.{Region}
use ris.RiTypes.Service.{Service}
use ris.RiTypes.Payload.{Payload}

pub data Event : Type 0 where
  on_region : Region → Event
  on_rm_region : String → Event
  on_service : String → ℕ → Service → Event
  on_rm_service : String → ℕ → String → Event
  on_payload : String → ℕ → Payload → Event
  on_rm_payload : String → ℕ → String → Event

-- `ok` is 0 and `failed` is -1.
pub data Status : Type 0 where
  ok failed : Status

pub Status-cases : (s : Status) → (s ≡ ok) ⊎ (s ≡ failed)
Status-cases ok = inl refl
Status-cases failed = inr refl
