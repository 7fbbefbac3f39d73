-- ===== src/SnapshotTransfer/Addressed.antt =====
-- The frames that the service sends to one client: src/snapshot/snapshotservice.cxx.
use ris.Base.{
  ℕ, zero, suc, ◌≤◌, ◌<◌, ◌≡◌, ◌≢◌, refl, sym, ◌∙◌, ap, subst, String, Bool, true, false, none,
  List, [], ◌∷◌, ◌++◌, map, All, All-append, arith, length, str_dec, ite, if_neg, if_pos, ltb, ◌==◌,
  Option-cases, Bool-cases, inl, inr,
}
use ris.Observer.{ok}
use ris.Containers.Map
use ris.RegionTable.Updates.{ite_self}
use ris.RiTypes.Messages.{SnapshotItem}
use ris.SnapshotService
use ris.SnapshotService.{SnapshotService, Fate, sent}
use ris.SnapshotService.Worker
use ris.SnapshotService.Worker.{SnapshotServiceWorker, Frame, reply, carries, asks_sync}
use ris.SnapshotService.Steps.{Event, asks, signals, ticks, step, run, items_of, items_to, item_of}
use ris.SnapshotService.Completion.{TakesItems, Serves}
use ris.SnapshotClient.Transfer.{NoReply}

-- The frames that went to one client.
unfoldable pub frames_to : String → List (String × Frame) → List Frame
frames_to id [] = []
frames_to id ((to, f) ∷ fs) = let rest = frames_to id fs in ite (str_dec to id) (f ∷ rest) rest

pub frames_to-append :
    (id : String) (xs ys : List (String × Frame))
    → frames_to id (xs ++ ys) ≡ frames_to id xs ++ frames_to id ys
unfolding frames_to
frames_to-append id [] ys = refl
frames_to-append id ((to, f) ∷ xs) ys = ground (arith, frames_to-append id xs ys)

pub frames_to_self : (id : String) (fs : List Frame) → frames_to id (map (λ f. (id, f)) fs) ≡ fs
unfolding frames_to
frames_to_self id [] = refl
frames_to_self id (f ∷ fs) = ite_self id _ _ ∙ ap (λ l. f ∷ l) (frames_to_self id fs)

frames_to_other :
    (id other : String) (fs : List Frame)
    → other ≢ id
    → frames_to id (map (λ f. (other, f)) fs) ≡ []
unfolding frames_to
frames_to_other id other [] n = refl
frames_to_other id other (f ∷ fs) n =
    if_neg (str_dec other id) n _ _ ∙ frames_to_other id other fs n

pub items_of-frames_to :
    (id : String) (out : List (String × Frame)) → items_of (frames_to id out) ≡ items_to id out
unfolding frames_to items_of items_to
items_of-frames_to id [] = refl
items_of-frames_to id ((to, f) ∷ out) = elim (str_dec to id) [
  | yes h ↦
      ap items_of (if_pos (str_dec to id) h _ _)
      ∙ ap (λ l. item_of f ++ l) (items_of-frames_to id out)
      ∙ sym (if_pos (str_dec to id) h _ _)
  | no h ↦
      ap items_of (if_neg (str_dec to id) h _ _)
      ∙ items_of-frames_to id out
      ∙ sym (if_neg (str_dec to id) h _ _)
]

send_loop-NoReply :
    (takes : ℕ → Bool) (p : List SnapshotItem) (n : ℕ) → All NoReply (Worker.send_loop takes p n).1
unfolding Worker.send_loop
send_loop-NoReply takes p zero = tt
send_loop-NoReply takes [] (suc n) = tt
send_loop-NoReply takes (x ∷ p) (suc n) = elim (Bool-cases (takes n)) [
  | inl h ↦ rw h (tt, send_loop-NoReply takes p n)
  | inr h ↦ rw h tt
]

send_items-frames :
    (now : ℕ) (takes : ℕ → Bool) (w : SnapshotServiceWorker) (n : ℕ)
    → (Worker.send_items now takes w n).2 ≡ (Worker.send_loop takes w.snapshot n).1
unfolding Worker.send_items
send_items-frames now takes w n = ground arith

sent-NoReply : (b : Bool) → All NoReply (sent b asks_sync)
unfolding sent
sent-NoReply true = (tt, tt)
sent-NoReply false = tt

sync-NoReply :
    (now : ℕ) (fate : Fate) (s : SnapshotService) (id : String)
    → All NoReply (SnapshotService.on_sync_signal now fate s id).1
unfolding SnapshotService.on_sync_signal
sync-NoReply now fate s id = elim (Option-cases (Map.find str_dec id s.workers)) [
  | inl e ↦ rw (e, SnapshotService.on_sync_signal) tt
  | inr (it, e) ↦
      let n = s.ctx.period_count in
      let r = Worker.send_items now fate.takes_item it n in
      let a =
        subst (All NoReply) (sym (send_items-frames now fate.takes_item it n))
          (send_loop-NoReply fate.takes_item it.snapshot n) in
      elim (Bool-cases (r.1 == 0)) [
        | inl h ↦ rw (e, SnapshotService.on_sync_signal, h) a
        | inr h ↦
            rw (e, SnapshotService.on_sync_signal, h)
              (All-append NoReply r.2 _ a (sent-NoReply fate.takes_sync))
      ]
]

step-NoReply :
    (id : String) (s : SnapshotService) (e : Event)
    → Serves id e
    → All NoReply (frames_to id (step s e).1)
unfolding step frames_to
step-NoReply id s (asks now fate other built) n =
    subst (All NoReply) (sym (frames_to_other id other _ n)) tt
step-NoReply id s (signals now fate requester) t =
    let a = sync-NoReply now fate s requester in
    let r = (SnapshotService.on_sync_signal now fate s requester).1 in
    elim (str_dec requester id) [
      | yes h ↦
          subst (λ j. All NoReply (frames_to j (map (λ f. (requester, f)) r))) h
            (subst (All NoReply) (sym (frames_to_self requester r)) a)
      | no h ↦ subst (All NoReply) (sym (frames_to_other id requester _ h)) tt
    ]
step-NoReply id s (ticks now) t = absurd t

pub run-NoReply :
    (id : String) (s : SnapshotService) (es : List Event)
    → All (Serves id) es
    → All NoReply (frames_to id (run s es).1)
unfolding run frames_to
run-NoReply id s [] a = tt
run-NoReply id s (e ∷ es) a =
    subst (All NoReply) (sym (frames_to-append id (step s e).1 _))
      (All-append NoReply _ _ (step-NoReply id s e a.0) (run-NoReply id (step s e).0 es a.1))

batch_starts :
    (takes : ℕ → Bool) (i j : SnapshotItem) (p : List SnapshotItem) (n : ℕ)
    → ((k : ℕ) → takes k ≡ true)
    → 2 ≤ n
    → (fs : List Frame) × ((Worker.send_loop takes (i ∷ j ∷ p) n).1 ≡ carries i ∷ carries j ∷ fs)
      × All NoReply fs
unfolding Worker.send_loop
batch_starts takes i j p zero t l = absurd (omega (arith, l))
batch_starts takes i j p (suc zero) t l = absurd (omega (arith, l))
batch_starts takes i j p (suc (suc m)) t l =
    ((Worker.send_loop takes p m).1, rw (t (suc m), t m) refl, send_loop-NoReply takes p m)

pub request_starts :
    (now : ℕ) (fate : Fate) (s : SnapshotService) (id : String) (i j : SnapshotItem)
    (p : List SnapshotItem)
    → Map.find str_dec id s.workers ≡ none
    → length s.workers < s.ctx.capacity
    → fate.takes_reply ≡ true
    → TakesItems fate
    → 2 ≤ s.ctx.period_count
    → (fs : List Frame) × ((SnapshotService.on_snapshot_req now fate s id (i ∷ j ∷ p)).1
        ≡ reply ok ∷ carries i ∷ carries j ∷ fs)
      × All NoReply fs
unfolding SnapshotService.on_snapshot_req SnapshotService.open_worker Worker.create
request_starts now fate s id i j p e b g t l =
    let n = s.ctx.period_count in
    let w = Worker.create (i ∷ j ∷ p) in
    let r = Worker.send_items now fate.takes_item w n in
    let (fs, q, a) = batch_starts fate.takes_item i j p n t l in
    let q' = send_items-frames now fate.takes_item w n ∙ q in
    let f : ltb (length s.workers) s.ctx.capacity ≡ true = ground arith in
    elim (Bool-cases (r.1 == 0)) [
      | inl h ↦
          (fs, rw (e, SnapshotService.on_snapshot_req, f, g, h) (ap (λ l. reply ok ∷ l) q'), a)
      | inr h ↦ (
        fs ++ sent fate.takes_sync asks_sync,
        rw (e, SnapshotService.on_snapshot_req, f, g, h)
            (ap (λ l. reply ok ∷ (l ++ sent fate.takes_sync asks_sync)) q'),
        All-append NoReply fs _ a (sent-NoReply fate.takes_sync),
      )
    ]
