-- ===== src/SnapshotClient/Progress.antt =====
-- The stages of the snapshot client: src/snapshot/snapshotclientworker.cxx.
use ris.Base.{
  ℕ, ◌≡◌, refl, String, true, false, Option, none, some, [], ◌∷◌, arith, str_dec, subst, is_empty,
  not, ◌==◌, Option-cases, Bool-cases, inl, inr, if_both, ite_both,
}
use ris.Observer.{Status-cases, Status, ok, failed}
use ris.RiTypes.Region
use ris.RiTypes.Region.{Region}
use ris.RiTypes.Service
use ris.RiTypes.Service.{Service}
use ris.RiTypes.Payload
use ris.RiTypes.Payload.{Payload}
use ris.RiTypes.Messages.{
  RegionMsg, RegionRuntime, snapshot_begin, region_begin, service, payload, region_end,
  snapshot_end,
}
use ris.SnapshotClient.{
  SnapshotBuilder, Message, item, sync_signal, other, Receiver, Stage, at_request, at_begin,
  at_region, at_body, at_region_or_finish, Client, completed, sync_rep, Outcome, finish, go,
  open_region, accept, body_message, between_message, on_req_readable, pull_snapshot_begin,
  pull_region_begin, pull_region_or_finish, pull_region_body, readable, received_region, stop,
}

abbrev pub Allowed : Option Stage → String → Type 0
Allowed (some at_body) last = is_empty last ≡ false
Allowed (some at_region_or_finish) last = is_empty last ≡ true
Allowed (some at_request) last = Unit {0}
Allowed (some at_begin) last = Unit {0}
Allowed (some at_region) last = Unit {0}
Allowed none last = Unit {0}

-- What the `CHECK`s ask of each stage.
abbrev pub IsSound : Client → Type 0
IsSound c = Allowed c.stage c.last_region

-- The transfer goes on, with no report; or it is over, and its one report is the last thing done.
pub data Moves {B : Type 0} : Outcome B → Type 0 where
  goes_on : (c : Client) (b : B) (s : Stage) → c.stage ≡ some s → IsSound c → Moves (c, b, [])
  answers :
      (c : Client) (b : B) (s : Stage) (id : String)
      → c.stage ≡ some s
      → IsSound c
      → Moves (c, b, sync_rep id ∷ [])
  is_over : (c : Client) (b : B) (err : Status) → Moves (stop c, b, completed err ∷ [])

is_empty_nil : is_empty "" ≡ true
unfolding is_empty
is_empty_nil = refl

module _ {B : Type 0} (sb : SnapshotBuilder B) where
  finish-Moves : (c : Client) (b : B) (err : Status) → Moves (finish c b err)
  unfolding finish
  finish-Moves c b err = is_over c b err

  open_region-Moves :
      (c : Client) (b : B) (r : Region) → is_empty r.id ≡ false → Moves (open_region sb c b r)
  unfolding open_region
  open_region-Moves c b r h = elim (Status-cases (sb.add_region b r).1) [
    | inl e ↦ rw (e, open_region) (goes_on _ _ at_body refl h)
    | inr e ↦ rw (e, open_region) (finish-Moves c _ failed)
  ]

  accept-Moves :
      (c : Client) (r : B × Status) → c.stage ≡ some at_body → IsSound c → Moves (accept sb c r)
  unfolding accept
  accept-Moves c r e h = elim (Status-cases r.1) [
    | inl f ↦ rw (f, accept) (goes_on c r.0 at_body e h)
    | inr f ↦ rw (f, accept) (finish-Moves c r.0 failed)
  ]

  body_message-Moves :
      (now : ℕ) (c : Client) (b : B) (m : Message)
      → c.stage ≡ some at_body
      → IsSound c
      → Moves (body_message sb now c b m)
  unfolding body_message
  body_message-Moves now c b (item (payload p)) e h =
      if_both Moves (not (Payload.good (Payload.of_protobuf now p))) (finish-Moves c b failed)
        (accept-Moves c _ e h)
  body_message-Moves now c b (item (service s)) e h =
      if_both Moves (not (Service.good (Service.of_protobuf now s))) (finish-Moves c b failed)
        (accept-Moves c _ e h)
  body_message-Moves now c b (item (region_end rt)) e h =
      ite_both Moves (str_dec rt.uuid c.last_region)
        (goes_on _ b at_region_or_finish refl is_empty_nil) (finish-Moves c b failed)
  body_message-Moves now c b (item snapshot_begin) e h = finish-Moves c b failed
  body_message-Moves now c b (item (region_begin rt r)) e h = finish-Moves c b failed
  body_message-Moves now c b (item snapshot_end) e h = finish-Moves c b failed
  body_message-Moves now c b sync_signal e h = answers c b at_body c.requester e h
  body_message-Moves now c b other e h = finish-Moves c b failed

  good-id : (r : Region) → Region.good r ≡ true → is_empty r.id ≡ false
  unfolding Region.good
  good-id r h = ground arith

  between_message-Moves :
      (times : ℕ × ℕ) (c : Client) (b : B) (m : Message)
      → c.stage ≡ some at_region_or_finish
      → IsSound c
      → Moves (between_message sb times c b m)
  unfolding between_message
  between_message-Moves times c b (item (region_begin rt r)) e h =
      elim (Bool-cases (Region.good (received_region times.0 rt r))) [
        | inl g ↦
            rw (g, between_message)
              (open_region-Moves c b (record (received_region times.0 rt r) { timeval = times.1 })
                (good-id _ g))
        | inr g ↦ rw (g, between_message) (finish-Moves c b failed)
      ]
  between_message-Moves times c b (item snapshot_end) e h = finish-Moves c b ok
  between_message-Moves times c b (item snapshot_begin) e h = goes_on c b at_region_or_finish e h
  between_message-Moves times c b (item (service s)) e h = goes_on c b at_region_or_finish e h
  between_message-Moves times c b (item (payload p)) e h = goes_on c b at_region_or_finish e h
  between_message-Moves times c b (item (region_end rt)) e h = goes_on c b at_region_or_finish e h
  between_message-Moves times c b sync_signal e h = answers c b at_region_or_finish c.requester e h
  between_message-Moves times c b other e h = goes_on c b at_region_or_finish e h

  module _ {F : Type 0} (rx : Receiver F) where
    pull_region_begin-Moves :
        (now : ℕ) (c : Client) (b : B) (f : F)
        → ((rt : RegionRuntime) (r : RegionMsg)
            → rx.recv_region_begin f ≡ some (rt, r)
            → is_empty r.uuid ≡ false)
        → Moves (pull_region_begin sb rx now c b f)
    unfolding pull_region_begin received_region Region.of_protobuf
    pull_region_begin-Moves now c b f n = elim (Option-cases (rx.recv_region_begin f)) [
      | inl e ↦ rw (e, pull_region_begin) (finish-Moves c b failed)
      | inr ((rt, r), e) ↦ rw (e, pull_region_begin) (open_region-Moves c b _ (n rt r e))
    ]

    -- A message that the handler is called with at a stage that the `CHECK`s allow fails no `CHECK`,
    -- provided that a first region has an id. Either the transfer goes on, at a stage that the
    -- `CHECK`s allow and with no report to the caller, or it is over: the client is stopped and has
    -- reported to the caller exactly once.
    pub readable-Moves :
        (times : ℕ × ℕ) (c : Client) (b : B) (f : F) (s : Stage)
        → c.stage ≡ some s
        → IsSound c
        → ((rt : RegionRuntime) (r : RegionMsg)
            → rx.recv_region_begin f ≡ some (rt, r)
            → is_empty r.uuid ≡ false)
        → (o : Outcome B) × (readable sb rx times c b f ≡ some o) × Moves o
    unfolding readable on_req_readable pull_snapshot_begin pull_region_body pull_region_or_finish go
    readable-Moves times c b f at_request e h n = elim (Option-cases (rx.recv_rep f)) [
      | inl g ↦ (
        on_req_readable sb rx c b f,
        ground arith,
        rw (g, on_req_readable) (finish-Moves c b failed),
      )
      | inr (result, g) ↦ (
        on_req_readable sb rx c b f,
        ground arith,
        rw (g, on_req_readable)
            (if_both Moves (result == 0) (goes_on _ b at_begin refl tt) (finish-Moves c b failed)),
      )
    ]
    readable-Moves times c b f at_begin e h n = (
      pull_snapshot_begin sb rx c b f,
      ground arith,
      if_both Moves (rx.recv_begin f) (goes_on _ b at_region refl tt) (finish-Moves c b failed),
    )
    readable-Moves times c b f at_region e h n = (
      pull_region_begin sb rx times.0 c b f,
      ground arith,
      pull_region_begin-Moves times.0 c b f n,
    )
    readable-Moves times c b f at_body e h n =
        let k : is_empty c.last_region ≡ false = subst (λ s. Allowed s c.last_region) e h in
        elim (Option-cases (rx.recv f)) [
          | inl g ↦ (finish c b failed, ground arith, finish-Moves c b failed)
          | inr (m, g) ↦
              (body_message sb times.0 c b m, ground arith, body_message-Moves times.0 c b m e h)
        ]
    readable-Moves times c b f at_region_or_finish e h n =
        let k : is_empty c.last_region ≡ true = subst (λ s. Allowed s c.last_region) e h in
        elim (Option-cases (rx.recv f)) [
          | inl g ↦ (finish c b failed, ground arith, finish-Moves c b failed)
          | inr (m, g) ↦
              (between_message sb times c b m, ground arith, between_message-Moves times c b m e h)
        ]
