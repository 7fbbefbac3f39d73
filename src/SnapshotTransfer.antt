-- ===== src/SnapshotTransfer.antt =====
-- A transfer from end to end: the service of src/snapshot/snapshotservice.cxx sends the package that
-- src/region/regiontable.cxx built, and the client of src/snapshot/snapshotclientworker.cxx, with the
-- product of src/tracker/regionproduct.cxx, receives what the service sent to it.
pub mod Addressed
use ris.Base.{
  ℕ, zero, suc, ◌≤◌, ◌<◌, ◌*◌, ◌≡◌, ◌≢◌, refl, sym, ◌∙◌, ap, subst, String, Bool, true, false,
  Option, none, some, List, [], ◌∷◌, ◌++◌, map, All, All-append, arith, length, str_dec, ite,
  if_neg, if_pos, ltb, ◌==◌, Option-cases, Bool-cases, inl, inr, if_both, ite_both, ite_split,
}
use ris.Observer.{ok}
use ris.Containers.Map
use ris.RegionTable
use ris.RegionTable.{RegionTable}
use ris.RegionTable.Invariant
use ris.RegionTable.Updates.{ite_self}
use ris.RegionProduct
use ris.RiTypes.Messages.{SnapshotItem, snapshot_begin, region_begin}
use ris.RiTypes.Region
use ris.SnapshotService
use ris.SnapshotService.{SnapshotService, Fate, sent}
use ris.SnapshotService.Worker
use ris.SnapshotService.Worker.{SnapshotServiceWorker, Frame, reply, carries, asks_sync}
use ris.SnapshotService.Steps.{Event, asks, signals, ticks, step, run, items_of, items_to, item_of}
use ris.SnapshotService.Invariant.{IsValid}
use ris.SnapshotService.Completion.{TakesItems, Serves, signals_of, request_completes}
use ris.SnapshotTransfer.Addressed.{
  frames_to, frames_to-append, frames_to_self, items_of-frames_to, run-NoReply, request_starts,
}
use ris.SnapshotClient.{Receiver, at_request}
use ris.SnapshotClient.Transfer.{IsFaithful, NoReply, waiting, body_of}
use ris.SnapshotClient.Completion.{Completes, transfer_completes}
use ris.SnapshotClient.Filling.{package_parts}

-- What goes to the client: the reply, the first two items, and frames with the others.
delivered :
    (s : SnapshotService) (id : String) (now : ℕ) (fate : Fate) (i j : SnapshotItem)
    (p : List SnapshotItem) (es : List Event)
    → IsValid s
    → Map.find str_dec id s.workers ≡ none
    → length s.workers < s.ctx.capacity
    → 2 ≤ s.ctx.period_count
    → fate.takes_reply ≡ true
    → TakesItems fate
    → All (Serves id) es
    → length (i ∷ j ∷ p) ≤ s.ctx.period_count * suc (signals_of id es)
    → (fs : List Frame) × (frames_to id (run s (asks now fate id (i ∷ j ∷ p) ∷ es)).1
        ≡ reply ok ∷ carries i ∷ carries j ∷ fs)
      × All NoReply fs
      × (i ∷ j ∷ items_of fs ≡ i ∷ j ∷ p)
unfolding run step items_of item_of
delivered s id now fate i j p es v e b two g tk a n =
    let (more, q, c) = request_starts now fate s id i j p e b g tk two in
    let r = SnapshotService.on_snapshot_req now fate s id (i ∷ j ∷ p) in
    let later = run r.0 es in
    let out = (run s (asks now fate id (i ∷ j ∷ p) ∷ es)).1 in
    let fs = more ++ frames_to id later.1 in
    let h : frames_to id out ≡ reply ok ∷ carries i ∷ carries j ∷ fs =
      frames_to-append id (map (λ f. (id, f)) r.1) later.1
      ∙ ap (λ l. l ++ frames_to id later.1) (frames_to_self id r.1 ∙ q) in
    (
      fs,
      h,
      All-append NoReply more _ c (run-NoReply id r.0 es a),
      sym (ap items_of h)
          ∙ items_of-frames_to id out
          ∙ (request_completes id s now fate (i ∷ j ∷ p) es v e b g tk a n).0,
    )

-- The service has a worker for the client neither before nor after; it is below its capacity and its
-- batches hold two items at least. The table is valid, and the package that it built of itself goes
-- out. The socket takes the reply and the items for the client, no time-out and no second request of
-- the client intervenes, and the signals of the client release batches enough for the package; other
-- clients do what they like. Then the client that handles the frames that were sent to it is stopped
-- at the end, has told its caller once, of a success, and its product is valid and shows the region,
-- the services and the payloads of the table, in order, up to the times at which they were stored.
pub snapshot_transfers :
    (rx : Receiver Frame) (faithful : IsFaithful rx) (times : ℕ → ℕ × ℕ)
    (ticking : (k : ℕ) → (times k).0 ≢ 0) (t : RegionTable) (s : SnapshotService) (id : String)
    (now : ℕ) (fate : Fate) (built : List SnapshotItem) (es : List Event)
    → RegionTable.Invariant.IsValid t
    → RegionTable.build_snapshot t ≡ some built
    → IsValid s
    → Map.find str_dec id s.workers ≡ none
    → length s.workers < s.ctx.capacity
    → 2 ≤ s.ctx.period_count
    → fate.takes_reply ≡ true
    → TakesItems fate
    → All (Serves id) es
    → length built ≤ s.ctx.period_count * suc (signals_of id es)
    → Completes rx faithful times ticking t id 0
        (waiting id)
        RegionProduct.create
        (frames_to id (run s (asks now fate id built ∷ es)).1)
snapshot_transfers rx faithful times ticking t s id now fate built es vt eb v e b two g tk a n =
    let (r, sis, pis, er, es', ep, q) = package_parts t built eb in
    let begin = region_begin (Region.to_runtime t.region) r in
    let body = body_of t sis pis in
    let (fs, h, c, k) =
      delivered s id now fate snapshot_begin begin body es v e b two g tk a
        (subst (λ l. length l ≤ s.ctx.period_count * suc (signals_of id es)) q n) in
    subst
      (λ l.
        Completes rx faithful times ticking t id 0 (waiting id) RegionProduct.create
          (frames_to id (run s (asks now fate id l ∷ es)).1))
      (sym q)
      (subst (λ l. Completes rx faithful times ticking t id 0 (waiting id) RegionProduct.create l)
        (sym h)
        (transfer_completes rx faithful times ticking t id snapshot_begin begin fs 0 built vt eb
          (k ∙ sym q) c))
