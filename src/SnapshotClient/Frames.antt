-- ===== src/SnapshotClient/Frames.antt =====
-- What the client does with each frame of a transfer: src/snapshot/snapshotclientworker.cxx.
use ris.Base.{ℕ, ◌≡◌, refl, String, false, Option, some, [], ◌∷◌, is_empty}
use ris.Observer.{ok}
use ris.RiTypes.Region
use ris.RiTypes.Region.{Region}
use ris.RiTypes.RoundTrip.{region_round_trip}
use ris.RiTypes.Messages.{RegionMsg, SnapshotItem, snapshot_begin, region_begin, snapshot_end}
use ris.RegionTable.{RegionTable}
use ris.RegionTable.Updates.{ite_self}
use ris.RegionProduct
use ris.RegionProduct.{RegionProduct}
use ris.SnapshotService.Worker.{Frame, reply, carries, asks_sync}
use ris.SnapshotClient.{
  Receiver, item, at_request, at_begin, at_region, at_body, at_region_or_finish, Outcome, readable,
  open_region, on_req_readable, pull_snapshot_begin, pull_region_begin, received_region, go,
  pull_region_body, pull_region_or_finish, body_message, finish, stop, between_message, sync_rep,
  completed,
}
use ris.SnapshotClient.Transfer.{builder, IsFaithful, at, gone}

module _ (rx : Receiver Frame) (faithful : IsFaithful rx) (times : ℕ → ℕ × ℕ) (t : RegionTable)
    (requester : String) where
  pub sync_between :
      (k : ℕ) (b : RegionProduct)
      → readable builder rx (times k) (at requester at_region_or_finish "") b asks_sync
        ≡ some (at requester at_region_or_finish "", b, sync_rep requester ∷ [])
  unfolding readable pull_region_or_finish between_message is_empty
  sync_between k b = rw faithful.syncs refl

  pub snapshot_ends :
      (k : ℕ) (b : RegionProduct)
      → readable builder rx (times k) (at requester at_region_or_finish "") b (carries snapshot_end)
        ≡ some (gone, b, completed ok ∷ [])
  unfolding stop readable pull_region_or_finish between_message is_empty finish
  snapshot_ends k b = rw (faithful.items snapshot_end) refl

  pub sync_in_body :
      (k : ℕ) (b : RegionProduct) (id : String)
      → is_empty id ≡ false
      → readable builder rx (times k) (at requester at_body id) b asks_sync
        ≡ some (at requester at_body id, b, sync_rep requester ∷ [])
  unfolding readable pull_region_body body_message
  sync_in_body k b id h = rw (h, faithful.syncs) refl

  pub item_in_body :
      (k : ℕ) (b : RegionProduct) (id : String) (i : SnapshotItem)
      → is_empty id ≡ false
      → readable builder rx (times k) (at requester at_body id) b (carries i)
        ≡ some (body_message builder (times k).0 (at requester at_body id) b (item i))
  unfolding readable pull_region_body
  item_in_body k b id i h = rw (h, faithful.items i) refl

  pub region_ends :
      (now : ℕ) (b : RegionProduct)
      → body_message builder now
          (at requester at_body t.region.id)
          b
          (item (Region.to_snapshot_end t.region))
        ≡ (at requester at_region_or_finish "", b, [])
  unfolding body_message Region.to_snapshot_end Region.to_runtime
  region_ends now b = ite_self t.region.id _ _

  pub opens :
      (k : ℕ) (r : RegionMsg)
      → Region.to_protobuf t.region ≡ some r
      → ◌≡◌ {A = Option (Outcome RegionProduct)}
          (readable builder rx
            (times k)
            (at requester at_region "")
            RegionProduct.create
            (carries (region_begin (Region.to_runtime t.region) r)))
          (some (
            at requester at_body t.region.id,
            record RegionProduct.create { region = record t.region { timeval = (times k).0 } },
            [],
          ))
  unfolding readable pull_region_begin received_region open_region RegionProduct.add_region
      RegionProduct.create Region.default Region.to_runtime is_empty
  opens k r e =
      rw
        (
          faithful.opens (Region.to_runtime t.region) r,
          pull_region_begin,
          region_round_trip (times k).0 t.region r e,
        )
        refl

  pub accepted :
      (k : ℕ) (b : RegionProduct)
      → readable builder rx (times k) (at requester at_request "") b (reply ok)
        ≡ some (at requester at_begin "", b, [])
  unfolding readable on_req_readable go
  accepted k b = rw (faithful.accepts, on_req_readable) refl

  pub begins :
      (k : ℕ) (b : RegionProduct)
      → readable builder rx (times k) (at requester at_begin "") b (carries snapshot_begin)
        ≡ some (at requester at_region "", b, [])
  unfolding readable pull_snapshot_begin go
  begins k b = rw faithful.begins refl
