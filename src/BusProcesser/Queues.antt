-- ===== src/BusProcesser/Queues.antt =====
-- The queues of `BusProcesser` between two calls: src/region/busprocesser.cxx.
use ris.Base.{
  ℕ, suc, ◌≤◌, ◌≡◌, refl, sym, ◌∙◌, ap, String, true, Option, none, some, List, [], ◌∷◌, arith,
  length, map, str_dec, Option-cases, inl, inr,
}
use ris.Containers.NodeList
use ris.Containers.NodeList.{mem, unlink}
use ris.Containers.Indexed
use ris.Containers.Indexed.{
  Indexed, IsCoherent, empty-IsCoherent, append-IsCoherent, remove-IsCoherent, to_back-IsCoherent,
}
use ris.BusProcesser
use ris.BusProcesser.{
  BusProcesser, Network, Sent, to_worker, to_bus, front, push_worker, pop_worker, find_worker,
  sendto_worker, enqueue, on_bus_readable, on_worker_readable,
}

-- Each worker stands once in the queue, and the messages are within the mark.
pub record IsValid {M : Type 0} (p : BusProcesser M) : Type 0 where
  pub workers : IsCoherent str_dec (λ w. w) p.workers
  pub msgs : length p.msgs ≤ p.hwm

head_at :
    (cell : ℕ → String) (is : List ℕ) (i : ℕ) (w : String)
    → ◌≡◌ {A = Option (ℕ × String)}
        (elim is [ [] ↦ none | j ∷ js ↦ some (j, cell j) ])
        (some (i, w))
    → (mem i is ≡ true)
      × (cell i ≡ w)
      × (map cell is ≡ w ∷ map cell (unlink i is))
      × (length is ≡ suc (length (unlink i is)))
unfolding mem unlink
head_at cell [] i w e = ground arith
head_at cell (j ∷ js) i w e = (ground arith, ground arith, ground arith, ground arith)

module _ {M : Type 0} where
  pub create-IsValid : (hwm : ℕ) → IsValid {M = M} (BusProcesser.create hwm)
  unfolding BusProcesser.create
  create-IsValid hwm = record { workers = empty-IsCoherent str_dec (λ w. w) ""; msgs = omega arith }

  pub push_worker-IsValid :
      (p : BusProcesser M) (w : String) → IsValid p → IsValid (push_worker p w)
  unfolding push_worker
  push_worker-IsValid p w v = elim (Option-cases (Indexed.find str_dec w p.workers)) [
    | inl e ↦
        rw (e, push_worker)
          (record {
            workers = append-IsCoherent str_dec (λ w. w) w p.workers e v.workers;
            msgs = v.msgs;
          })
    | inr (i, e) ↦
        rw (e, push_worker)
          (record {
            workers =
                to_back-IsCoherent str_dec (λ w. w) i p.workers (v.workers.sound w i e).0 v.workers;
            msgs = v.msgs;
          })
  ]

  -- The first worker can be popped.
  front_found :
      (p : BusProcesser M) (i : ℕ) (w : String)
      → IsValid p
      → front p ≡ some (i, w)
      → Indexed.find str_dec w p.workers ≡ some i
  unfolding front mem
  front_found p i w v e =
      let (m, k, c, l) = head_at p.workers.list.cell p.workers.list.order i w e in
      ap (λ w. Indexed.find str_dec w p.workers) (sym k) ∙ v.workers.complete i m

  pub pop_worker-some :
      (p : BusProcesser M) (i : ℕ) (w : String)
      → IsValid p
      → front p ≡ some (i, w)
      → (q : BusProcesser M) × (pop_worker p ≡ some q)
        × IsValid q
        × (q.msgs ≡ p.msgs)
        × (q.hwm ≡ p.hwm)
        × (Indexed.contents p.workers ≡ w ∷ Indexed.contents q.workers)
        × (length p.workers.list.order ≡ suc (length q.workers.list.order))
  unfolding pop_worker front Indexed.remove NodeList.erase
  pop_worker-some p i w v e =
      let f = front_found p i w v e in
      let (m, k, c, l) = head_at p.workers.list.cell p.workers.list.order i w e in
      (
        record p { workers = Indexed.remove str_dec w i p.workers },
        rw (e, pop_worker, f) refl,
        record {
          workers = remove-IsCoherent str_dec (λ w. w) w i p.workers f v.workers;
          msgs = v.msgs;
        },
        refl,
        refl,
        c,
        l,
      )
