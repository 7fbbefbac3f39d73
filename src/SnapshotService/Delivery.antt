-- ===== src/SnapshotService/Delivery.antt =====
-- What `SnapshotService` delivers to a client, batch after batch: src/snapshot/snapshotservice.cxx.
use ris.Base.{
  ℕ, ◌≡◌, ◌≢◌, refl, sym, ◌∙◌, ap, subst, String, none, List, [], ◌∷◌, ◌++◌, arith, All, str_dec,
  ltb, Bool-cases, inl, inr, ◌⊎◌, append-nil, append_assoc, if_pos, map,
}
use ris.RegionTable.Updates.{ite_self}
use ris.Words.{sub64}
use ris.RiTypes.Messages.{SnapshotItem}
use ris.Containers.Map
use ris.Containers.Map.Entries.{Distinct}
use ris.SnapshotService
use ris.SnapshotService.{SnapshotService, Fate, sent}
use ris.SnapshotService.Worker.{SnapshotServiceWorker, Frame}
use ris.SnapshotService.Steps.{Event, asks, signals, ticks, step, run, items_of, items_to, item_of}
use ris.SnapshotService.Invariant.{step-IsValid, IsValid, find-sweep-none}
use ris.SnapshotService.Ledger.{
  left_to, pending, Accounts, Accounts-trans, sync_account, ask_account, sync_other, ask_other,
  items_to_other,
}

pub items_to_self :
    (id : String) (fs : List Frame) → items_to id (map (λ f. (id, f)) fs) ≡ items_of fs
unfolding items_to items_of
items_to_self id [] = refl
items_to_self id (f ∷ fs) = ite_self id _ _ ∙ ap (λ t. item_of f ++ t) (items_to_self id fs)

pub items_to-append :
    (id : String) (xs ys : List (String × Frame))
    → items_to id (xs ++ ys) ≡ items_to id xs ++ items_to id ys
unfolding items_to
items_to-append id [] ys = refl
items_to-append id ((to, f) ∷ xs) ys = elim (str_dec to id) [
  | yes h ↦
      if_pos (str_dec to id) h _ _
      ∙ ap (λ t. item_of f ++ t) (items_to-append id xs ys)
      ∙ sym (append_assoc (item_of f) (items_to id xs) (items_to id ys))
      ∙ ap (λ t. t ++ items_to id ys) (sym (if_pos (str_dec to id) h _ _))
  | no h ↦ ground (arith, items_to-append id xs ys)
]

sweep_found :
    (now timeout : ℕ) (id : String) (m : List (String × SnapshotServiceWorker))
    → Distinct str_dec m
    → (Map.find str_dec id (SnapshotService.sweep now timeout m) ≡ none)
      ⊎ (Map.find str_dec id (SnapshotService.sweep now timeout m) ≡ Map.find str_dec id m)
unfolding SnapshotService.sweep Map.find
sweep_found now timeout id [] d = inl refl
sweep_found now timeout id ((j, w) ∷ m) (a, d) =
    let ih = sweep_found now timeout id m d in
    elim (Bool-cases (ltb timeout (sub64 now w.tv_last))) [
      | inl h ↦ elim (str_dec j id) [
        | yes e ↦ inl (
            ground (
              arith,
              find-sweep-none now timeout id m (subst (λ i. Map.find str_dec i m ≡ none) e a),
            ))
        | no e ↦ elim ih [ inl q ↦ inl (ground arith) | inr q ↦ inr (ground arith) ]
      ]
      | inr h ↦ elim (str_dec j id) [
        | yes e ↦ inr (ground arith)
        | no e ↦ elim ih [ inl q ↦ inl (ground arith) | inr q ↦ inr (ground arith) ]
      ]
    ]

-- An event that is no request for a snapshot by the client.
abbrev pub NoRequest : String → Event → Type 0
NoRequest id (asks now fate requester built) = requester ≢ id
NoRequest id (signals now fate requester) = Unit
NoRequest id (ticks now) = Unit

signal_account :
    (id : String) (s : SnapshotService) (now : ℕ) (fate : Fate)
    → let r = step s (signals now fate id) in
      Accounts (items_to id r.1) (pending id r.0) (pending id s)
unfolding step
signal_account id s now fate =
    let r = SnapshotService.on_sync_signal now fate s id in
    subst (λ l. Accounts l (pending id r.0) (pending id s)) (sym (items_to_self id r.1))
      (sync_account now fate s id)

step_account :
    (id : String) (s : SnapshotService) (e : Event)
    → IsValid s
    → NoRequest id e
    → Accounts (items_to id (step s e).1) (pending id (step s e).0) (pending id s)
unfolding step SnapshotService.on_timer items_to left_to
step_account id s (asks now fate other built) v n =
    let r = SnapshotService.on_snapshot_req now fate s other built in
    rw (items_to_other id other n r.1, ask_other id other n now fate s built)
      ([], append-nil (pending id s))
step_account id s (signals now fate requester) v n = elim (str_dec requester id) [
  | yes h ↦
      subst
        (λ j.
          Accounts (items_to id (step s (signals now fate j)).1)
            (pending id (step s (signals now fate j)).0) (pending id s))
        (sym h) (signal_account id s now fate)
  | no h ↦
      let r = SnapshotService.on_sync_signal now fate s requester in
      rw (items_to_other id requester h r.1, sync_other id requester h now fate s)
        ([], append-nil (pending id s))
]
step_account id s (ticks now) v n = elim (sweep_found now s.ctx.timeout id s.workers v.distinct) [
  | inl e ↦ rw e (pending id s, refl)
  | inr e ↦ rw e ([], append-nil (pending id s))
]

run_account :
    (id : String) (s : SnapshotService) (es : List Event)
    → IsValid s
    → All (NoRequest id) es
    → Accounts (items_to id (run s es).1) (pending id (run s es).0) (pending id s)
unfolding run items_to
run_account id s [] v a = ([], append-nil (pending id s))
run_account id s (e ∷ es) v a =
    let r = step s e in
    let later = run r.0 es in
    subst (λ l. Accounts l (pending id later.0) (pending id s))
      (sym (items_to-append id r.1 later.1))
      (Accounts-trans (items_to id r.1) (items_to id later.1) (pending id s) (pending id r.0)
        (pending id later.0) (step_account id s e v a.0)
        (run_account id r.0 es (step-IsValid s e v) a.1))

-- A client asks, and its request is followed by any events but another request of its own: signals
-- and requests of any clients, whose frames the socket takes or not, and the timer. At any time the
-- items that went to the client, in their order, are a prefix of the package that was built for its
-- request, and those that the service still holds for it are the ones that come next.
pub request-Accounts :
    (id : String) (s : SnapshotService) (now : ℕ) (fate : Fate) (built : List SnapshotItem)
    (es : List Event)
    → IsValid s
    → Map.find str_dec id s.workers ≡ none
    → All (NoRequest id) es
    → let r = run s (asks now fate id built ∷ es) in
      Accounts (items_to id r.1) (pending id r.0) built
unfolding run step
request-Accounts id s now fate built es v e a =
    let r = SnapshotService.on_snapshot_req now fate s id built in
    let first = step s (asks now fate id built) in
    let later = run r.0 es in
    subst (λ l. Accounts l (pending id later.0) built)
      (sym (
        items_to-append id first.1 later.1
        ∙ ap (λ t. t ++ items_to id later.1) (items_to_self id r.1)))
      (Accounts-trans (items_of r.1) (items_to id later.1) built (pending id r.0)
        (pending id later.0) (ask_account now fate s id built e)
        (run_account id r.0 es (step-IsValid s (asks now fate id built) v) a))
