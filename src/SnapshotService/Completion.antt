-- ===== src/SnapshotService/Completion.antt =====
-- That `SnapshotService` completes a transfer: src/snapshot/snapshotservice.cxx.
use ris.Base.{
  ℕ, suc, ◌≤◌, ◌<◌, ◌+◌, ◌-◌, ◌*◌, ◌≡◌, ◌≢◌, refl, sym, ◌∙◌, ap, subst, String, true, none, List,
  [], ◌∷◌, ◌++◌, arith, length, All, str_dec, ltb, ◌==◌, Option-cases, Bool-cases, inl, inr,
  append-nil, append_assoc, ite, if_neg,
}
use ris.RegionTable.Updates.{ite_self}
use ris.RiTypes.Messages.{SnapshotItem}
use ris.Containers.Map
use ris.Containers.Map.Entries.{find-Every}
use ris.SnapshotService
use ris.SnapshotService.{SnapshotService, Fate, sent}
use ris.SnapshotService.Worker
use ris.SnapshotService.Worker.{SnapshotServiceWorker, Frame, reply}
use ris.SnapshotService.Steps.{Event, asks, signals, ticks, step, run, items_of, items_to}
use ris.SnapshotService.Invariant.{IsValid, HasMore, step-IsValid, run-IsValid}
use ris.SnapshotService.Batches.{send_items-taken}
use ris.SnapshotService.Ledger.{
  left_to, pending, with_sync, erased, assigned, inserted, sync_other, ask_other, items_to_other,
}
use ris.SnapshotService.Delivery.{items_to_self, items_to-append}

-- The socket takes every item.
abbrev pub TakesItems : Fate → Type 0
TakesItems fate = (i : ℕ) → fate.takes_item i ≡ true

-- What was delivered, with what is left, is all there was; `count` items went, or all of them.
abbrev Moves : List SnapshotItem → List SnapshotItem → List SnapshotItem → ℕ → Type 0
Moves items rest all count = (items ++ rest ≡ all) × (length rest ≡ length all - count)

empty_of : (xs : List SnapshotItem) → length xs ≡ 0 → xs ≡ []
empty_of [] e = refl
empty_of (x ∷ xs) e = absurd (omega (arith, e))

sync_completes :
    (now : ℕ) (fate : Fate) (s : SnapshotService) (id : String)
    → TakesItems fate
    → let r = SnapshotService.on_sync_signal now fate s id in
      Moves (items_of r.1) (pending id r.0) (pending id s) s.ctx.period_count
unfolding SnapshotService.on_sync_signal left_to items_of
sync_completes now fate s id t = elim (Option-cases (Map.find str_dec id s.workers)) [
  | inl e ↦ rw (e, SnapshotService.on_sync_signal, e) (refl, omega arith)
  | inr (it, e) ↦
      let n = s.ctx.period_count in
      let r = Worker.send_items now fate.takes_item it n in
      let (p, l, c) = send_items-taken now fate.takes_item it n t in
      elim (Bool-cases (r.1 == 0)) [
        | inl h ↦
            let z : length r.0.snapshot ≡ 0 = ground arith in
            rw (e, SnapshotService.on_sync_signal, h, erased id s.workers)
              (ap (λ l. items_of r.2 ++ l) (sym (empty_of r.0.snapshot z)) ∙ p, omega (arith, z, l))
        | inr h ↦
            rw
              (
                e,
                SnapshotService.on_sync_signal,
                h,
                assigned id r.0 s.workers,
                with_sync fate.takes_sync r.2,
              )
              (p, l)
      ]
]

ask_completes :
    (now : ℕ) (fate : Fate) (s : SnapshotService) (id : String) (built : List SnapshotItem)
    → Map.find str_dec id s.workers ≡ none
    → length s.workers < s.ctx.capacity
    → fate.takes_reply ≡ true
    → TakesItems fate
    → let r = SnapshotService.on_snapshot_req now fate s id built in
      Moves (items_of r.1) (pending id r.0) built s.ctx.period_count
unfolding SnapshotService.on_snapshot_req SnapshotService.open_worker Worker.create left_to items_of
ask_completes now fate s id built e b g t =
    let n = s.ctx.period_count in
    let w = Worker.create built in
    let r = Worker.send_items now fate.takes_item w n in
    let (p, l, c) = send_items-taken now fate.takes_item w n t in
    let f : ltb (length s.workers) s.ctx.capacity ≡ true = ground arith in
    elim (Bool-cases (r.1 == 0)) [
      | inl h ↦
          let z : length r.0.snapshot ≡ 0 = ground arith in
          rw (e, SnapshotService.on_snapshot_req, f, g, h, e)
            (ap (λ l. items_of r.2 ++ l) (sym (empty_of r.0.snapshot z)) ∙ p, omega (arith, z, l))
      | inr h ↦
          rw
            (
              e,
              SnapshotService.on_snapshot_req,
              f,
              g,
              h,
              inserted id r.0 s.workers e,
              with_sync fate.takes_sync r.2,
            )
            (p, l)
    ]

step-ctx : (s : SnapshotService) (e : Event) → (step s e).0.ctx ≡ s.ctx
unfolding step SnapshotService.on_snapshot_req SnapshotService.open_worker
    SnapshotService.on_sync_signal SnapshotService.on_timer
step-ctx s (asks now fate id built) = ground arith
step-ctx s (signals now fate id) = ground arith
step-ctx s (ticks now) = refl

-- No request of the client's own, no time-out, and the socket takes what its signals release.
abbrev pub Serves : String → Event → Type 0
Serves id (asks now fate requester built) = requester ≢ id
Serves id (signals now fate requester) = TakesItems fate
Serves id (ticks now) = ⊥

unfoldable pub signals_of : String → List Event → ℕ
signals_of id [] = 0
signals_of id (asks now fate requester built ∷ es) = signals_of id es
signals_of id (signals now fate requester ∷ es) =
    let rest = signals_of id es in ite (str_dec requester id) (suc rest) rest
signals_of id (ticks now ∷ es) = signals_of id es

Moves-trans :
    (xs ys before between after : List SnapshotItem) (m n : ℕ)
    → Moves xs between before m
    → Moves ys after between n
    → Moves (xs ++ ys) after before (m + n)
Moves-trans xs ys before between after m n (p, l) (q, k) =
    (append_assoc xs ys after ∙ ap (λ t. xs ++ t) q ∙ p, omega (arith, l, k))

-- The batches that an event releases for the client.
abbrev batches : String → Event → ℕ
batches id e = signals_of id (e ∷ [])

signals_of_cons :
    (id : String) (e : Event) (es : List Event)
    → signals_of id (e ∷ es) ≡ batches id e + signals_of id es
unfolding signals_of
signals_of_cons id (asks now fate requester built) es = omega arith
signals_of_cons id (signals now fate requester) es = ground arith
signals_of_cons id (ticks now) es = omega arith

batches-signals : (id : String) (now : ℕ) (fate : Fate) → batches id (signals now fate id) ≡ 1
unfolding signals_of
batches-signals id now fate = ite_self id _ _

signal_completes :
    (id : String) (s : SnapshotService) (now : ℕ) (fate : Fate)
    → TakesItems fate
    → let r = step s (signals now fate id) in
      Moves
        (items_to id r.1)
        (pending id r.0)
        (pending id s)
        (s.ctx.period_count * batches id (signals now fate id))
unfolding step
signal_completes id s now fate t =
    let (p, l) = sync_completes now fate s id t in
    let r = SnapshotService.on_sync_signal now fate s id in
    rw (items_to_self id r.1, batches-signals id now fate) (p, omega (arith, l))

step_completes :
    (id : String) (s : SnapshotService) (e : Event)
    → Serves id e
    → Moves
        (items_to id (step s e).1)
        (pending id (step s e).0)
        (pending id s)
        (s.ctx.period_count * batches id e)
unfolding step signals_of items_to
step_completes id s (asks now fate other built) n =
    let r = SnapshotService.on_snapshot_req now fate s other built in
    rw (items_to_other id other n r.1, ask_other id other n now fate s built) (refl, omega arith)
step_completes id s (signals now fate requester) t = elim (str_dec requester id) [
  | yes h ↦
      subst
        (λ j.
          Moves (items_to id (step s (signals now fate j)).1)
            (pending id (step s (signals now fate j)).0) (pending id s)
            (s.ctx.period_count * batches id (signals now fate j)))
        (sym h) (signal_completes id s now fate t)
  | no h ↦
      let r = SnapshotService.on_sync_signal now fate s requester in
      rw (items_to_other id requester h r.1, sync_other id requester h now fate s)
        (refl, rw (if_neg {C = ℕ} (str_dec requester id) h 1 0) (omega arith))
]
step_completes id s (ticks now) t = absurd t

distribute : (a b c : ℕ) → a * b + a * c ≡ a * (b + c)
distribute a b c = grind arith

run_completes :
    (id : String) (s : SnapshotService) (es : List Event)
    → All (Serves id) es
    → Moves
        (items_to id (run s es).1)
        (pending id (run s es).0)
        (pending id s)
        (s.ctx.period_count * signals_of id es)
unfolding run items_to signals_of
run_completes id s [] a = (refl, omega arith)
run_completes id s (e ∷ es) a =
    let r = step s e in
    let later = run r.0 es in
    let (p, l) =
      Moves-trans (items_to id r.1) (items_to id later.1) (pending id s) (pending id r.0)
        (pending id later.0) (s.ctx.period_count * batches id e)
        (s.ctx.period_count * signals_of id es) (step_completes id s e a.0)
        (subst
          (λ c.
            Moves (items_to id later.1) (pending id later.0) (pending id r.0)
              (c.period_count * signals_of id es))
          (step-ctx s e) (run_completes id r.0 es a.1)) in
    (
      ap (λ t. t ++ pending id later.0) (items_to-append id r.1 later.1) ∙ p,
      l
          ∙ ap (λ n. length (pending id s) - n)
              (rw (signals_of_cons id e es)
                (distribute s.ctx.period_count (batches id e) (signals_of id es))),
    )

nothing_left :
    (id : String) (s : SnapshotService)
    → IsValid s
    → pending id s ≡ []
    → Map.find str_dec id s.workers ≡ none
unfolding left_to
nothing_left id s v p = elim (Option-cases (Map.find str_dec id s.workers)) [
  | inl e ↦ e
  | inr (w, e) ↦
      absurd
        (find-Every str_dec HasMore id w s.workers v.pending e (ap length (sym (ap left_to e) ∙ p)))
]

-- A service below its capacity that has no worker for a client accepts the client's request, if the
-- socket takes the reply. If the socket takes the client's items, no time-out intervenes and the
-- client does not ask again, then as soon as the first batch and the batches of the client's signals
-- can hold the package, the client has got exactly the package, each item once and in its order, and
-- the service keeps no worker for it, whatever the other clients do meanwhile.
pub request_completes :
    (id : String) (s : SnapshotService) (now : ℕ) (fate : Fate) (built : List SnapshotItem)
    (es : List Event)
    → IsValid s
    → Map.find str_dec id s.workers ≡ none
    → length s.workers < s.ctx.capacity
    → fate.takes_reply ≡ true
    → TakesItems fate
    → All (Serves id) es
    → length built ≤ s.ctx.period_count * suc (signals_of id es)
    → let r = run s (asks now fate id built ∷ es) in
      (items_to id r.1 ≡ built) × (Map.find str_dec id r.0.workers ≡ none)
unfolding run step
request_completes id s now fate built es v e b g t a n =
    let ask = asks now fate id built in
    let r = SnapshotService.on_snapshot_req now fate s id built in
    let later = run r.0 es in
    let (p, l) =
      Moves-trans (items_of r.1) (items_to id later.1) built (pending id r.0) (pending id later.0)
        s.ctx.period_count (s.ctx.period_count * signals_of id es)
        (ask_completes now fate s id built e b g t)
        (subst
          (λ c.
            Moves (items_to id later.1) (pending id later.0) (pending id r.0)
              (c.period_count * signals_of id es))
          (step-ctx s ask) (run_completes id r.0 es a)) in
    let z = empty_of (pending id later.0) (omega (arith, l, n)) in
    (
      items_to-append id (step s ask).1 later.1
          ∙ ap (λ t. t ++ items_to id later.1) (items_to_self id r.1)
          ∙ sym (append-nil _)
          ∙ ap (λ t. (items_of r.1 ++ items_to id later.1) ++ t) (sym z)
          ∙ p,
      nothing_left id later.0 (run-IsValid r.0 es (step-IsValid s ask v)) z,
    )
