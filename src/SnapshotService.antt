-- ===== src/SnapshotService.antt =====
-- `SnapshotService`: include/snapshot/snapshotservice.h and src/snapshot/snapshotservice.cxx. The
-- frames go to the sender of the message that is handled. Whether the socket takes a frame is a
-- parameter. The actor's thread and its poller are outside.
pub mod Worker
pub mod Steps
pub mod Invariant
pub mod Batches
pub mod Ledger
pub mod Delivery
pub mod Completion
use ris.Base.{
  ℕ, zero, suc, String, Bool, true, false, not, Option, none, some, List, [], ◌∷◌, ◌++◌,
  if◌then◌else◌, str_dec, ltb, ◌==◌, length,
}
use ris.Words.{sub64}
use ris.Observer.{Status, ok, failed}
use ris.RiTypes.Messages.{SnapshotItem}
use ris.Containers.Map
use ris.SnapshotService.Worker
use ris.SnapshotService.Worker.{SnapshotServiceWorker, Frame, reply, carries, asks_sync}

-- `SnapshotCtx`, without its addresses
pub record Ctx : Type 0 where
  pub capacity : ℕ
  pub period_count : ℕ
  pub timeout : ℕ

pub record SnapshotService : Type 0 where
  pub ctx : Ctx
  pub workers : List (String × SnapshotServiceWorker)

-- What the socket takes during one handler: the reply, an item by the number of those that may
-- follow it in its batch, and the request for a signal.
pub record Fate : Type 0 where
  pub takes_reply : Bool
  pub takes_item : ℕ → Bool
  pub takes_sync : Bool

unfoldable pub sent : Bool → Frame → List Frame
sent taken f = if taken then f ∷ [] else []

unfoldable pub start : Ctx → SnapshotService
start ctx = record { ctx = ctx; workers = [] }

-- `onSnapshotReq` of an accepted client, once the reply is sent.
unfoldable pub open_worker :
    ℕ → Fate → SnapshotService → String → List SnapshotItem → SnapshotService × List Frame
unfolding Worker.create Worker.send_items sent
open_worker now fate s requester built =
    let (w, left, frames) =
      Worker.send_items now fate.takes_item (Worker.create built) s.ctx.period_count in
    if left == 0 then (s, frames) else (
      record s { workers = Map.insert str_dec requester w s.workers },
      frames ++ sent fate.takes_sync asks_sync,
    )

-- What is built is what `buildSnapshot` would return.
unfoldable pub on_snapshot_req :
    ℕ → Fate → SnapshotService → String → List SnapshotItem → SnapshotService × List Frame
unfolding open_worker sent
on_snapshot_req now fate s requester built = elim (Map.find str_dec requester s.workers) [
  | some it ↦ (s, sent fate.takes_reply (reply failed))
  | none ↦
      if ltb (length s.workers) s.ctx.capacity
      then (if fate.takes_reply
          then (let (s', frames) = open_worker now fate s requester built in
              (s', reply ok ∷ frames))
          else (s, []))
      else (s, sent fate.takes_reply (reply failed))
]

unfoldable pub on_sync_signal : ℕ → Fate → SnapshotService → String → SnapshotService × List Frame
unfolding Worker.send_items sent
on_sync_signal now fate s requester = elim (Map.find str_dec requester s.workers) [
  | none ↦ (s, [])
  | some it ↦
      let (w, left, frames) = Worker.send_items now fate.takes_item it s.ctx.period_count in
      if left == 0
      then (record s { workers = Map.erase str_dec requester s.workers }, frames)
      else (
        record s { workers = Map.assign str_dec requester w s.workers },
        frames ++ sent fate.takes_sync asks_sync,
      )
]

unfoldable pub sweep :
    ℕ → ℕ → List (String × SnapshotServiceWorker) → List (String × SnapshotServiceWorker)
sweep now timeout [] = []
sweep now timeout ((id, w) ∷ m) =
    let rest = sweep now timeout m in
    if ltb timeout (sub64 now w.tv_last) then rest else (id, w) ∷ rest

unfoldable pub on_timer : ℕ → SnapshotService → SnapshotService
unfolding sweep
on_timer now s = record s { workers = sweep now s.ctx.timeout s.workers }
