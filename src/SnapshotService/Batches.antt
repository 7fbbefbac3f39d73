-- ===== src/SnapshotService/Batches.antt =====
-- One batch of `SnapshotServiceWorker::sendItems`: src/snapshot/snapshotserviceworker.cxx.
use ris.Base.{
  ℕ, zero, suc, ◌-◌, ◌≡◌, refl, sym, ◌∙◌, ap, Bool, true, false, List, [], ◌∷◌, ◌++◌, arith, length,
  ◌==◌, Bool-cases, inl, inr, append_assoc,
}
use ris.RiTypes.Messages.{SnapshotItem}
use ris.SnapshotService.{sent}
use ris.SnapshotService.Worker
use ris.SnapshotService.Worker.{SnapshotServiceWorker, Frame, carries, asks_sync, reply}
use ris.SnapshotService.Steps.{items_of, item_of}

-- What the items of a batch are to the list that they are taken from.
abbrev pub IsPrefix : List SnapshotItem → List SnapshotItem → Type 0
IsPrefix xs ys = (zs : List SnapshotItem) × (xs ++ zs ≡ ys)

pub items_of-append : (fs gs : List Frame) → items_of (fs ++ gs) ≡ items_of fs ++ items_of gs
unfolding items_of
items_of-append [] gs = refl
items_of-append (f ∷ fs) gs =
    ap (λ l. item_of f ++ l) (items_of-append fs gs)
    ∙ sym (append_assoc (item_of f) (items_of fs) (items_of gs))

pub items_of-sent : (b : Bool) → items_of (sent b asks_sync) ≡ []
unfolding items_of sent item_of
items_of-sent true = refl
items_of-sent false = refl

send_loop-IsPrefix :
    (takes : ℕ → Bool) (p : List SnapshotItem) (n : ℕ)
    → IsPrefix (items_of (Worker.send_loop takes p n).1) p
unfolding Worker.send_loop items_of item_of
send_loop-IsPrefix takes p zero = (p, refl)
send_loop-IsPrefix takes [] (suc n) = ([], refl)
send_loop-IsPrefix takes (x ∷ p) (suc n) =
    let (zs, e) = send_loop-IsPrefix takes p n in
    elim (Bool-cases (takes n)) [
      | inl h ↦ rw h (zs, ap (λ l. x ∷ l) e)
      | inr h ↦ rw h (x ∷ p, refl)
    ]

send_loop-done :
    (takes : ℕ → Bool) (p : List SnapshotItem) (n : ℕ)
    → (Worker.send_loop takes p n).2 ≡ true
    → items_of (Worker.send_loop takes p n).1 ++ (Worker.send_loop takes p n).0 ≡ p
unfolding Worker.send_loop items_of item_of
send_loop-done takes p zero d = refl
send_loop-done takes [] (suc n) d = refl
send_loop-done takes (x ∷ p) (suc n) d = elim (Bool-cases (takes n)) [
  | inl h ↦ rw h (ap (λ l. x ∷ l) (send_loop-done takes p n (ground arith)))
  | inr h ↦ ground arith
]

send_loop-taken :
    (takes : ℕ → Bool) (p : List SnapshotItem) (n : ℕ)
    → ((i : ℕ) → takes i ≡ true)
    → ((Worker.send_loop takes p n).2 ≡ true)
      × (length (Worker.send_loop takes p n).0 ≡ length p - n)
unfolding Worker.send_loop
send_loop-taken takes p zero h = (refl, omega arith)
send_loop-taken takes [] (suc n) h = (refl, omega arith)
send_loop-taken takes (x ∷ p) (suc n) h =
    let (d, l) = send_loop-taken takes p n h in rw (h n) (d, omega (arith, l))

pub send_items-IsPrefix :
    (now : ℕ) (takes : ℕ → Bool) (w : SnapshotServiceWorker) (n : ℕ)
    → IsPrefix (items_of (Worker.send_items now takes w n).2) w.snapshot
unfolding Worker.send_items
send_items-IsPrefix now takes w n =
    let h = send_loop-IsPrefix takes w.snapshot n in
    elim (Bool-cases (Worker.send_loop takes w.snapshot n).2) [
      | inl d ↦ rw (d, Worker.send_items) h
      | inr d ↦ rw (d, Worker.send_items) h
    ]

-- A batch that leaves something was sent, and what it leaves is the rest.
pub send_items-rest :
    (now : ℕ) (takes : ℕ → Bool) (w : SnapshotServiceWorker) (n : ℕ)
    → (Worker.send_items now takes w n).1 == 0 ≡ false
    → items_of (Worker.send_items now takes w n).2 ++ (Worker.send_items now takes w n).0.snapshot
      ≡ w.snapshot
unfolding Worker.send_items
send_items-rest now takes w n z = elim (Bool-cases (Worker.send_loop takes w.snapshot n).2) [
  | inl d ↦ rw (d, Worker.send_items) (send_loop-done takes w.snapshot n d)
  | inr d ↦ ground arith
]

pub send_items-taken :
    (now : ℕ) (takes : ℕ → Bool) (w : SnapshotServiceWorker) (n : ℕ)
    → ((i : ℕ) → takes i ≡ true)
    → (items_of (Worker.send_items now takes w n).2 ++ (Worker.send_items now takes w n).0.snapshot
        ≡ w.snapshot)
      × (length (Worker.send_items now takes w n).0.snapshot ≡ length w.snapshot - n)
      × ((Worker.send_items now takes w n).1 ≡ length (Worker.send_items now takes w n).0.snapshot)
unfolding Worker.send_items
send_items-taken now takes w n h =
    let (d, l) = send_loop-taken takes w.snapshot n h in
    rw (d, Worker.send_items) (send_loop-done takes w.snapshot n d, l, refl)
