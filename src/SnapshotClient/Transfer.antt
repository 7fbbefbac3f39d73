-- ===== src/SnapshotClient/Transfer.antt =====
-- The client against the frames of the service: src/snapshot/snapshotclientworker.cxx, with a
-- `RegionProduct` as its builder, and the package of src/region/regiontable.cxx.
use ris.Base.{ℕ, suc, ◌≡◌, String, true, Option, none, some, List, [], ◌∷◌, ◌++◌, map, ◌>>=◌}
use ris.Observer.{Status, ok}
use ris.RiTypes.Service.{Service}
use ris.RiTypes.Payload.{Payload}
use ris.RiTypes.Region
use ris.RiTypes.Messages.{
  RegionMsg, RegionRuntime, SnapshotItem, snapshot_begin, region_begin, snapshot_end,
}
use ris.RegionTable.{RegionTable}
use ris.RegionProduct
use ris.RegionProduct.{RegionProduct}
use ris.RegionProduct.Catalogue.{Catalogue}
use ris.SnapshotService.Worker.{Frame, reply, carries, asks_sync}
use ris.SnapshotClient.{
  at_request, SnapshotBuilder, Receiver, item, sync_signal, Stage, Client, Output, completed,
  sync_rep, Outcome, readable,
}

-- `RegionProduct` as an `ISnapshotBuilder`
abbrev pub builder : SnapshotBuilder RegionProduct
builder = record {
  add_region = RegionProduct.add_region;
  add_service = RegionProduct.add_service;
  add_payload = RegionProduct.add_payload;
}

-- The receptions of zmqx decode the frames that the service sends.
pub record IsFaithful (rx : Receiver Frame) : Type 0 where
  pub accepts : rx.recv_rep (reply ok) ≡ some 0
  pub begins : rx.recv_begin (carries snapshot_begin) ≡ true
  pub opens :
      (rt : RegionRuntime) (r : RegionMsg)
      → rx.recv_region_begin (carries (region_begin rt r)) ≡ some (rt, r)
  pub items : (i : SnapshotItem) → rx.recv (carries i) ≡ some (item i)
  pub syncs : rx.recv asks_sync ≡ some sync_signal

-- The frames that arrive, one after another. The clock is read at the number of the frame; `none`
-- is a failed `CHECK`.
unfoldable pub receive_all :
    Receiver Frame
    → (ℕ → ℕ × ℕ)
    → ℕ
    → Client
    → RegionProduct
    → List Frame
    → Option (Outcome RegionProduct)
receive_all rx times k c b [] = some (c, b, [])
receive_all rx times k c b (f ∷ fs) = do
  now ← readable builder rx (times k) c b f
  later ← receive_all rx times (suc k) now.0 now.1 fs
  some (later.0, later.1, now.2 ++ later.2)

-- What the caller of the client is told.
unfoldable pub reports : List Output → List Status
reports [] = []
reports (completed err ∷ os) = err ∷ reports os
reports (sync_rep id ∷ os) = reports os

abbrev pub untimed_service : Service → Service
untimed_service s = record s { timeval = 0 }

abbrev pub untimed_payload : Payload → Payload
untimed_payload p = record p { timeval = 0 }

-- A catalogue without the times at which its entries were made.
abbrev pub untimed : Catalogue → Catalogue
untimed c = record {
  region = record c.region { timeval = 0 };
  services = map untimed_service c.services;
  payloads = map untimed_payload c.payloads;
}

-- A frame that is no reply.
abbrev pub NoReply : Frame → Type 0
NoReply (reply result) = ⊥
NoReply (carries i) = Unit
NoReply asks_sync = Unit

-- A client that runs, and one that is stopped.
abbrev pub at : String → Stage → String → Client
at requester s last = record { stage = some s; last_region = last; requester = requester }

abbrev pub gone : Client
gone = record { stage = none; last_region = ""; requester = "" }

-- What is left of the package in the body of the region.
abbrev pub body_of : RegionTable → List SnapshotItem → List SnapshotItem → List SnapshotItem
body_of t services payloads =
    services ++ (payloads ++ (Region.to_snapshot_end t.region ∷ snapshot_end ∷ []))

-- The client has asked and is not yet answered, and its product is new.
abbrev pub waiting : String → Client
waiting requester = at requester at_request ""
