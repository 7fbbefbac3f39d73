-- ===== src/SnapshotService/Invariant.antt =====
-- What holds of `SnapshotService` between two calls: src/snapshot/snapshotservice.cxx.
use ris.Base.{
  ℕ, suc, ◌≤◌, ◌≡◌, ◌≢◌, refl, String, Bool, false, none, List, [], ◌∷◌, arith, length, str_dec,
  ltb, ◌==◌, Option-cases, Bool-cases, inl, inr, if_both, ltb→lt,
}
use ris.Words.{sub64}
use ris.RiTypes.Messages.{SnapshotItem}
use ris.Containers.Map
use ris.Containers.Map.Entries.{
  Distinct, Every, length-insert, length-assign, length-erase, insert-Distinct, assign-Distinct,
  erase-Distinct, insert-Every, assign-Every, erase-Every,
}
use ris.SnapshotService
use ris.SnapshotService.{SnapshotService, Ctx, Fate}
use ris.SnapshotService.Worker
use ris.SnapshotService.Worker.{SnapshotServiceWorker, Frame}
use ris.SnapshotService.Steps.{Event, asks, signals, ticks, step, run}

-- A worker that stays has something left to send.
abbrev pub HasMore : SnapshotServiceWorker → Type 0
HasMore w = length w.snapshot ≢ 0

-- The workers are within the capacity, one for each requester.
pub record IsValid (s : SnapshotService) : Type 0 where
  pub bound : length s.workers ≤ s.ctx.capacity
  pub distinct : Distinct str_dec s.workers
  pub pending : Every str_dec HasMore s.workers

pub start-IsValid : (ctx : Ctx) → IsValid (SnapshotService.start ctx)
unfolding SnapshotService.start
start-IsValid ctx = record { bound = omega arith; distinct = tt; pending = tt }

-- A count that is not zero is the length of what the worker has left.
pub send_items-HasMore :
    (now : ℕ) (takes : ℕ → Bool) (w : SnapshotServiceWorker) (count : ℕ)
    → (Worker.send_items now takes w count).1 == 0 ≡ false
    → HasMore (Worker.send_items now takes w count).0
unfolding Worker.send_items
send_items-HasMore now takes w count z =
    elim (Bool-cases (Worker.send_loop takes w.snapshot count).2) [
      | inl d ↦ ground arith
      | inr d ↦ ground arith
    ]

on_snapshot_req-IsValid :
    (now : ℕ) (fate : Fate) (s : SnapshotService) (id : String) (built : List SnapshotItem)
    → IsValid s
    → IsValid (SnapshotService.on_snapshot_req now fate s id built).0
unfolding SnapshotService.on_snapshot_req SnapshotService.open_worker
on_snapshot_req-IsValid now fate s id built v =
    let r = Worker.send_items now fate.takes_item (Worker.create built) s.ctx.period_count in
    elim (Option-cases (Map.find str_dec id s.workers)) [
      | inr (it, e) ↦ rw (e, SnapshotService.on_snapshot_req) v
      | inl e ↦ elim (Bool-cases (ltb (length s.workers) s.ctx.capacity)) [
        | inr f ↦ rw (e, SnapshotService.on_snapshot_req, f) v
        | inl f ↦ elim (Bool-cases fate.takes_reply) [
          | inr g ↦ rw (e, SnapshotService.on_snapshot_req, f, g) v
          | inl g ↦ elim (Bool-cases (r.1 == 0)) [
            | inl h ↦ rw (e, SnapshotService.on_snapshot_req, f, g, h) v
            | inr h ↦
                rw (e, SnapshotService.on_snapshot_req, f, g, h)
                  (record {
                    bound = omega (arith, length-insert str_dec id r.0 s.workers e, ltb→lt _ _ f);
                    distinct = insert-Distinct str_dec id r.0 s.workers v.distinct;
                    pending =
                        insert-Every str_dec HasMore id r.0 s.workers
                          (send_items-HasMore now fate.takes_item (Worker.create built)
                            s.ctx.period_count h)
                          v.pending;
                  })
          ]
        ]
      ]
    ]

on_sync_signal-IsValid :
    (now : ℕ) (fate : Fate) (s : SnapshotService) (id : String)
    → IsValid s
    → IsValid (SnapshotService.on_sync_signal now fate s id).0
unfolding SnapshotService.on_sync_signal
on_sync_signal-IsValid now fate s id v = elim (Option-cases (Map.find str_dec id s.workers)) [
  | inl e ↦ rw (e, SnapshotService.on_sync_signal) v
  | inr (it, e) ↦
      let r = Worker.send_items now fate.takes_item it s.ctx.period_count in
      elim (Bool-cases (r.1 == 0)) [
        | inl h ↦
            rw (e, SnapshotService.on_sync_signal, h)
              (record {
                bound = omega (arith, length-erase str_dec id s.workers, v.bound);
                distinct = erase-Distinct str_dec id s.workers v.distinct;
                pending = erase-Every str_dec HasMore id s.workers v.pending;
              })
        | inr h ↦
            rw (e, SnapshotService.on_sync_signal, h)
              (record {
                bound = omega (arith, length-assign str_dec id r.0 it s.workers e, v.bound);
                distinct = assign-Distinct str_dec id r.0 s.workers v.distinct;
                pending =
                    assign-Every str_dec HasMore id r.0 s.workers
                      (send_items-HasMore now fate.takes_item it s.ctx.period_count h) v.pending;
              })
      ]
]

module _ (now timeout : ℕ) where
  abbrev swept : List (String × SnapshotServiceWorker) → List (String × SnapshotServiceWorker)
  swept m = SnapshotService.sweep now timeout m

  length-sweep : (m : List (String × SnapshotServiceWorker)) → length (swept m) ≤ length m
  unfolding SnapshotService.sweep
  length-sweep [] = omega arith
  length-sweep ((id, w) ∷ m) =
      if_both (λ r. length r ≤ suc (length m)) (ltb timeout (sub64 now w.tv_last)) {x = swept m}
        {y = (id, w) ∷ swept m} (omega (arith, length-sweep m)) (omega (arith, length-sweep m))

  pub find-sweep-none :
      (id : String) (m : List (String × SnapshotServiceWorker))
      → Map.find str_dec id m ≡ none
      → Map.find str_dec id (swept m) ≡ none
  unfolding SnapshotService.sweep Map.find
  find-sweep-none id [] e = refl
  find-sweep-none id ((j, w) ∷ m) e = ground (arith, find-sweep-none id m)

  sweep-Distinct :
      (m : List (String × SnapshotServiceWorker)) → Distinct str_dec m → Distinct str_dec (swept m)
  unfolding SnapshotService.sweep
  sweep-Distinct [] d = d
  sweep-Distinct ((id, w) ∷ m) (a, d) =
      if_both (Distinct str_dec) (ltb timeout (sub64 now w.tv_last)) (sweep-Distinct m d)
        (find-sweep-none id m a, sweep-Distinct m d)

  sweep-Every :
      (m : List (String × SnapshotServiceWorker))
      → Every str_dec HasMore m
      → Every str_dec HasMore (swept m)
  unfolding SnapshotService.sweep
  sweep-Every [] a = a
  sweep-Every ((id, w) ∷ m) (p, a) =
      if_both (Every str_dec HasMore) (ltb timeout (sub64 now w.tv_last)) (sweep-Every m a)
        (p, sweep-Every m a)

pub step-IsValid : (s : SnapshotService) (e : Event) → IsValid s → IsValid (step s e).0
unfolding step SnapshotService.on_timer
step-IsValid s (asks now fate id built) v = on_snapshot_req-IsValid now fate s id built v
step-IsValid s (signals now fate id) v = on_sync_signal-IsValid now fate s id v
step-IsValid s (ticks now) v = record {
  bound = omega (arith, length-sweep now s.ctx.timeout s.workers, v.bound);
  distinct = sweep-Distinct now s.ctx.timeout s.workers v.distinct;
  pending = sweep-Every now s.ctx.timeout s.workers v.pending;
}

-- Through any run the workers stay within the capacity, one for each requester, and each of them
-- has something left to send.
pub run-IsValid : (s : SnapshotService) (es : List Event) → IsValid s → IsValid (run s es).0
unfolding run
run-IsValid s [] v = v
run-IsValid s (e ∷ es) v = run-IsValid (step s e).0 es (step-IsValid s e v)
