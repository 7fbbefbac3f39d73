-- ===== src/SnapshotService/Ledger.antt =====
-- What one handler of `SnapshotService` delivers to a client, and what it leaves the other clients:
-- src/snapshot/snapshotservice.cxx.
use ris.Base.{
  ℕ, ◌≡◌, ◌≢◌, refl, sym, ◌∙◌, ap, String, Bool, Option, none, some, List, [], ◌∷◌, ◌++◌, length,
  str_dec, ltb, ◌==◌, Option-cases, Bool-cases, inl, inr, append-nil, append_assoc, if_neg, map,
}
use ris.RegionTable.Updates.{ite_self}
use ris.RiTypes.Messages.{SnapshotItem}
use ris.Containers.Map
use ris.SnapshotService
use ris.SnapshotService.{SnapshotService, Fate, sent}
use ris.SnapshotService.Worker
use ris.SnapshotService.Worker.{SnapshotServiceWorker, Frame, carries, asks_sync, reply}
use ris.SnapshotService.Steps.{items_of, items_to, item_of}
use ris.SnapshotService.Batches.{
  items_of-append, items_of-sent, send_items-IsPrefix, send_items-rest,
}

unfoldable pub left_to : Option SnapshotServiceWorker → List SnapshotItem
left_to none = []
left_to (some w) = w.snapshot

-- What the service has still to send to a client.
abbrev pub pending : String → SnapshotService → List SnapshotItem
pending id s = left_to (Map.find str_dec id s.workers)

-- The items that were delivered, then those that are left, are the list up to some that are lost.
abbrev pub Accounts : List SnapshotItem → List SnapshotItem → List SnapshotItem → Type 0
Accounts items rest all = (lost : List SnapshotItem) × (items ++ (rest ++ lost) ≡ all)

pub Accounts-trans :
    (xs ys before between after : List SnapshotItem)
    → Accounts xs between before
    → Accounts ys after between
    → Accounts (xs ++ ys) after before
Accounts-trans xs ys before between after (l, p) (k, q) = (
  k ++ l,
  append_assoc xs ys _
      ∙ ap (λ t. xs ++ (ys ++ t)) (sym (append_assoc after k l))
      ∙ ap (λ t. xs ++ t) (sym (append_assoc ys (after ++ k) l) ∙ ap (λ t. t ++ l) q)
      ∙ p,
)

pub with_sync : (b : Bool) (fs : List Frame) → items_of (fs ++ sent b asks_sync) ≡ items_of fs
with_sync b fs =
    items_of-append fs (sent b asks_sync)
    ∙ ap (λ l. items_of fs ++ l) (items_of-sent b)
    ∙ append-nil (items_of fs)

pub erased :
    (id : String) (m : List (String × SnapshotServiceWorker))
    → Map.find str_dec id (Map.erase str_dec id m) ≡ none
erased id m = Map.find-erase str_dec id id m ∙ ite_self id _ _

pub assigned :
    (id : String) (w : SnapshotServiceWorker) (m : List (String × SnapshotServiceWorker))
    → Map.find str_dec id (Map.assign str_dec id w m) ≡ some w
assigned id w m = Map.find-assign str_dec id id w m ∙ ite_self id _ _

pub inserted :
    (id : String) (w : SnapshotServiceWorker) (m : List (String × SnapshotServiceWorker))
    → Map.find str_dec id m ≡ none
    → Map.find str_dec id (Map.insert str_dec id w m) ≡ some w
inserted id w m e = Map.find-insert str_dec id id w m e ∙ ite_self id _ _

pub sync_account :
    (now : ℕ) (fate : Fate) (s : SnapshotService) (id : String)
    → let r = SnapshotService.on_sync_signal now fate s id in
      Accounts (items_of r.1) (pending id r.0) (pending id s)
unfolding SnapshotService.on_sync_signal left_to items_of
sync_account now fate s id = elim (Option-cases (Map.find str_dec id s.workers)) [
  | inl e ↦ rw (e, SnapshotService.on_sync_signal, e) ([], refl)
  | inr (it, e) ↦
      let n = s.ctx.period_count in
      let r = Worker.send_items now fate.takes_item it n in
      elim (Bool-cases (r.1 == 0)) [
        | inl h ↦
            rw (e, SnapshotService.on_sync_signal, h, erased id s.workers)
              (send_items-IsPrefix now fate.takes_item it n)
        | inr h ↦
            rw
              (
                e,
                SnapshotService.on_sync_signal,
                h,
                assigned id r.0 s.workers,
                with_sync fate.takes_sync r.2,
              )
              (
                [],
                ap (λ t. items_of r.2 ++ t) (append-nil r.0.snapshot)
                    ∙ send_items-rest now fate.takes_item it n h,
              )
      ]
]

pub ask_account :
    (now : ℕ) (fate : Fate) (s : SnapshotService) (id : String) (built : List SnapshotItem)
    → Map.find str_dec id s.workers ≡ none
    → let r = SnapshotService.on_snapshot_req now fate s id built in
      Accounts (items_of r.1) (pending id r.0) built
unfolding SnapshotService.on_snapshot_req SnapshotService.open_worker Worker.create left_to items_of
    item_of sent
ask_account now fate s id built e =
    let n = s.ctx.period_count in
    let w = Worker.create built in
    let r = Worker.send_items now fate.takes_item w n in
    elim (Bool-cases (ltb (length s.workers) s.ctx.capacity)) [
      | inr f ↦ elim (Bool-cases fate.takes_reply) [
        | inl g ↦ rw (e, SnapshotService.on_snapshot_req, f, g, e) (built, refl)
        | inr g ↦ rw (e, SnapshotService.on_snapshot_req, f, g, e) (built, refl)
      ]
      | inl f ↦ elim (Bool-cases fate.takes_reply) [
        | inr g ↦ rw (e, SnapshotService.on_snapshot_req, f, g, e) (built, refl)
        | inl g ↦ elim (Bool-cases (r.1 == 0)) [
          | inl h ↦
              rw (e, SnapshotService.on_snapshot_req, f, g, h, e)
                (send_items-IsPrefix now fate.takes_item w n)
          | inr h ↦
              rw
                (
                  e,
                  SnapshotService.on_snapshot_req,
                  f,
                  g,
                  h,
                  inserted id r.0 s.workers e,
                  with_sync fate.takes_sync r.2,
                )
                (
                  [],
                  ap (λ t. items_of r.2 ++ t) (append-nil r.0.snapshot)
                      ∙ send_items-rest now fate.takes_item w n h,
                )
        ]
      ]
    ]

module _ (id other : String) (n : other ≢ id) where
  erased_other :
      (m : List (String × SnapshotServiceWorker))
      → Map.find str_dec id (Map.erase str_dec other m) ≡ Map.find str_dec id m
  erased_other m = Map.find-erase str_dec other id m ∙ if_neg (str_dec other id) n _ _

  assigned_other :
      (w : SnapshotServiceWorker) (m : List (String × SnapshotServiceWorker))
      → Map.find str_dec id (Map.assign str_dec other w m) ≡ Map.find str_dec id m
  assigned_other w m = Map.find-assign str_dec other id w m ∙ if_neg (str_dec other id) n _ _

  inserted_other :
      (w : SnapshotServiceWorker) (m : List (String × SnapshotServiceWorker))
      → Map.find str_dec other m ≡ none
      → Map.find str_dec id (Map.insert str_dec other w m) ≡ Map.find str_dec id m
  inserted_other w m e = Map.find-insert str_dec other id w m e ∙ if_neg (str_dec other id) n _ _

  pub sync_other :
      (now : ℕ) (fate : Fate) (s : SnapshotService)
      → Map.find str_dec id (SnapshotService.on_sync_signal now fate s other).0.workers
        ≡ Map.find str_dec id s.workers
  unfolding SnapshotService.on_sync_signal
  sync_other now fate s = elim (Option-cases (Map.find str_dec other s.workers)) [
    | inl e ↦ rw (e, SnapshotService.on_sync_signal) refl
    | inr (it, e) ↦
        let r = Worker.send_items now fate.takes_item it s.ctx.period_count in
        elim (Bool-cases (r.1 == 0)) [
          | inl h ↦ rw (e, SnapshotService.on_sync_signal, h) (erased_other s.workers)
          | inr h ↦ rw (e, SnapshotService.on_sync_signal, h) (assigned_other r.0 s.workers)
        ]
  ]

  pub ask_other :
      (now : ℕ) (fate : Fate) (s : SnapshotService) (built : List SnapshotItem)
      → Map.find str_dec id (SnapshotService.on_snapshot_req now fate s other built).0.workers
        ≡ Map.find str_dec id s.workers
  unfolding SnapshotService.on_snapshot_req SnapshotService.open_worker
  ask_other now fate s built = elim (Option-cases (Map.find str_dec other s.workers)) [
    | inr (it, e) ↦ rw (e, SnapshotService.on_snapshot_req) refl
    | inl e ↦
        let r = Worker.send_items now fate.takes_item (Worker.create built) s.ctx.period_count in
        elim (Bool-cases (ltb (length s.workers) s.ctx.capacity)) [
          | inr f ↦ rw (e, SnapshotService.on_snapshot_req, f) refl
          | inl f ↦ elim (Bool-cases fate.takes_reply) [
            | inr g ↦ rw (e, SnapshotService.on_snapshot_req, f, g) refl
            | inl g ↦ elim (Bool-cases (r.1 == 0)) [
              | inl h ↦ rw (e, SnapshotService.on_snapshot_req, f, g, h) refl
              | inr h ↦
                  rw (e, SnapshotService.on_snapshot_req, f, g, h) (inserted_other r.0 s.workers e)
            ]
          ]
        ]
  ]

  pub items_to_other : (fs : List Frame) → items_to id (map (λ f. (other, f)) fs) ≡ []
  unfolding items_to
  items_to_other [] = refl
  items_to_other (f ∷ fs) = if_neg (str_dec other id) n _ _ ∙ items_to_other fs
