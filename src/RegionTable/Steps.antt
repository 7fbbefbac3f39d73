-- ===== src/RegionTable/Steps.antt =====
-- The life of a region's table: the calls that the actor's handlers and its timers make, one after
-- another on the loop's thread, and a run of them.
use ris.Base.{ℕ, String, Bool, Option, some, List, [], ◌∷◌, ◌++◌, ◌>>=◌}
use ris.Observer.{Event}
use ris.RiTypes.Service.{Service}
use ris.RiTypes.Payload.{Payload}
use ris.RegionTable
use ris.RegionTable.{RegionTable}

pub data Call : Type 0 where
  adds_service : Service → Call
  rms_service : String → Call
  adds_payload : Payload → Call
  rms_payload : String → Call
  starts : Bool → Bool → Bool → Call
  stops : Call
  pubs_repeated : ℕ × ℕ → Call
  pubs_region : Call

-- `none` is an abort or a fault.
unfoldable pub step : RegionTable → Call → Option (RegionTable × List Event)
step t (adds_service svc) = let r = RegionTable.add_service t svc in some (r.0, r.2)
step t (rms_service svc) = let r = RegionTable.rm_service t svc in some (r.0, r.2)
step t (adds_payload pl) = let r = RegionTable.add_payload t pl in some (r.0, r.2)
step t (rms_payload pl) = let r = RegionTable.rm_payload t pl in some (r.0, r.2)
step t (starts ob reg rep) = let r = RegionTable.start t ob reg rep in some (r.0, r.2)
step t stops = RegionTable.stop t
step t (pubs_repeated times) = RegionTable.pub_repeated times t
step t pubs_region = some (t, RegionTable.pub_region t)

unfoldable pub run : RegionTable → List Call → Option (RegionTable × List Event)
unfolding step
run t [] = some (t, [])
run t (c ∷ cs) = do (t1, es) ← step t c; (t2, fs) ← run t1 cs; some (t2, es ++ fs)
