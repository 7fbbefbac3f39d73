-- ===== src/BusProcesser.antt =====
-- `BusProcesser`: include/region/busprocesser.h and src/region/busprocesser.cxx. The region's queue
-- of idle workers and of the messages that wait for one. A message is a value of a type `M`.
-- `Network` stands for the sockets: whether the router still knows a worker, and whether it takes a
-- message for it.
pub mod Queues
pub mod Delivery
pub mod Traffic
use ris.Base.{
  ℕ, zero, suc, String, Bool, Option, none, some, List, [], ◌∷◌, ◌++◌, ◌>>=◌, if◌then◌else◌, length,
  str_dec, ltb, is_empty, not,
}
use ris.Containers.Indexed
use ris.Containers.Indexed.{Indexed}

pub record Network : Type 0 where
  pub knows : String → Bool
  pub takes : String → Bool

-- What leaves on the two sockets.
pub data Sent (M : Type 0) : Type 0 where
  to_worker : String → M → Sent M
  to_bus : M → Sent M

pub record BusProcesser (M : Type 0) : Type 0 where
  pub hwm : ℕ
  pub workers : Indexed String String
  pub msgs : List M

module _ {M : Type 0} where
  -- The queues of a new processer, with the mark that `start` sets.
  unfoldable pub create : ℕ → BusProcesser M
  create hwm = record { hwm = hwm; workers = Indexed.empty ""; msgs = [] }

  -- `stop`, but for the sockets.
  unfoldable pub stop : BusProcesser M → BusProcesser M
  stop p = record p { workers = Indexed.empty ""; msgs = [] }

  -- `m_workers.front()`
  unfoldable pub front : BusProcesser M → Option (ℕ × String)
  front p = elim p.workers.list.order [ [] ↦ none | i ∷ is ↦ some (i, Indexed.get i p.workers) ]

  unfoldable pub push_worker : BusProcesser M → String → BusProcesser M
  push_worker p worker = elim (Indexed.find str_dec worker p.workers) [
    | none ↦ record p { workers = Indexed.append str_dec worker worker p.workers }
    | some it ↦ record p { workers = Indexed.to_back it p.workers }
  ]

  -- `none` is the failed `CHECK` that the first worker is in the index.
  unfoldable pub pop_worker : BusProcesser M → Option (BusProcesser M)
  unfolding front
  pop_worker p = elim (front p) [
    | none ↦ some p
    | some (i, worker) ↦ elim (Indexed.find str_dec worker p.workers) [
      | none ↦ none
      | some it ↦ some (record p { workers = Indexed.remove str_dec worker i p.workers })
    ]
  ]

  -- `m_msgs.push_back(msg)`, and the oldest message goes above the mark.
  unfoldable pub enqueue : ℕ → List M → M → List M
  enqueue hwm msgs m =
      let all = msgs ++ m ∷ [] in
      if ltb hwm (length all) then (elim all [ [] ↦ [] | x ∷ xs ↦ xs ]) else all

  module _ (net : Network) where
    -- The loop of `sendto_worker`: each round takes a worker off or is the last, so the number of
    -- workers bounds the rounds. It gives the worker that got the message, if one did.
    unfoldable pub find_worker : ℕ → BusProcesser M → Option (BusProcesser M × Option String)
    unfolding front
    find_worker zero p = some (p, none)
    find_worker (suc n) p = elim (front p) [
      | none ↦ some (p, none)
      | some (i, worker) ↦
          let next = (do q ← pop_worker p; find_worker n q) in
          if not (net.knows worker)
          then next
          else if not (net.takes worker)
          then some (p, none)
          else (do q ← pop_worker p; some (q, some worker))
    ]

    unfoldable pub sendto_worker : BusProcesser M → Option (BusProcesser M × Option String)
    sendto_worker p = find_worker (length p.workers.list.order) p

    -- `onBusReadable`, for the message that was received, if any.
    unfoldable pub on_bus_readable :
        BusProcesser M → Option M → Option (BusProcesser M × List (Sent M))
    unfolding enqueue
    on_bus_readable p none = some (p, [])
    on_bus_readable p (some m) = do
      (q, receiver) ← sendto_worker p
      some (elim receiver [
        | some worker ↦ (q, to_worker worker m ∷ [])
        | none ↦ (record q { msgs = enqueue q.hwm q.msgs m }, [])
      ])

  -- `onWorkerReadable`, for the sender and the rest of the message that was received, if any;
  -- `ready` is the test of its first byte.
  unfoldable pub on_worker_readable :
      (M → Bool) → BusProcesser M → Option (String × M) → BusProcesser M × List (Sent M)
  on_worker_readable ready p none = (p, [])
  on_worker_readable ready p (some (worker, m)) =
      if is_empty worker
      then (p, [])
      else (push_worker p worker, if ready m then [] else to_bus m ∷ [])
