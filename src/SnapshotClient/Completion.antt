-- ===== src/SnapshotClient/Completion.antt =====
-- That the transfer of a region's table completes: src/snapshot/snapshotclientworker.cxx.
use ris.Base.{
  ℕ, suc, ◌≡◌, ◌≢◌, refl, sym, ◌∙◌, ap, subst, String, false, Option, none, some, List, [], ◌∷◌,
  ◌++◌, All, arith, is_empty, collect, collect_cons,
}
use ris.Observer.{ok}
use ris.RiTypes.Region
use ris.RiTypes.Region.{Region}
use ris.RiTypes.Service
use ris.RiTypes.Service.{Service}
use ris.RiTypes.Payload
use ris.RiTypes.Payload.{Payload}
use ris.RiTypes.Messages.{RegionMsg, SnapshotItem, snapshot_begin, region_begin, snapshot_end}
use ris.Containers.Indexed
use ris.Containers.Indexed.{Indexed}
use ris.RegionTable
use ris.RegionTable.{RegionTable}
use ris.RegionTable.Updates.{shown}
use ris.RegionTable.Invariant
use ris.RegionProduct
use ris.RegionProduct.{RegionProduct}
use ris.RegionProduct.Catalogue
use ris.RegionProduct.Catalogue.{view, service_key, payload_key}
use ris.SnapshotService.Worker.{Frame, reply, carries, asks_sync}
use ris.SnapshotService.Steps.{items_of, item_of}
use ris.SnapshotClient.{
  Receiver, item, Client, at_begin, at_region, at_body, at_region_or_finish, Output, Outcome,
  readable, body_message, stop, sync_rep, completed,
}
use ris.SnapshotClient.Frames.{
  sync_between, snapshot_ends, sync_in_body, item_in_body, accepted, begins, opens, region_ends,
}
use ris.SnapshotClient.Filling.{
  package_parts, IsFilling, filled, next_service, next_payload, start-IsFilling,
}
use ris.SnapshotClient.Transfer.{
  waiting, body_of, builder, IsFaithful, receive_all, reports, untimed, NoReply, at, gone,
}

module _ (rx : Receiver Frame) (faithful : IsFaithful rx) (times : ℕ → ℕ × ℕ)
    (ticking : (k : ℕ) → (times k).0 ≢ 0) (t : RegionTable) (requester : String) where
  -- From here the frames end the transfer: the caller is told once, of a success, and the product
  -- shows the table.
  abbrev pub Completes : ℕ → Client → RegionProduct → List Frame → Type 0
  Completes k c b fs =
      (o : Outcome RegionProduct) × (receive_all rx times k c b fs ≡ some o)
      × (o.0.stage ≡ none)
      × (reports o.2 ≡ ok ∷ [])
      × Catalogue.IsValid o.1
      × (untimed (view o.1) ≡ untimed (shown t))

  reports-append : (xs ys : List Output) → reports xs ≡ [] → reports (xs ++ ys) ≡ reports ys
  unfolding reports
  reports-append [] ys e = refl
  reports-append (completed err ∷ xs) ys e = ground arith
  reports-append (sync_rep id ∷ xs) ys e = reports-append xs ys e

  after :
      (k : ℕ) (c d : Client) (b b' : RegionProduct) (out : List Output) (f : Frame)
      (fs : List Frame)
      → readable builder rx (times k) c b f ≡ some (d, b', out)
      → reports out ≡ []
      → Completes (suc k) d b' fs
      → Completes k c b (f ∷ fs)
  unfolding receive_all
  after k c d b b' out f fs e q (o, p, z, r, v, u) =
      ((o.0, o.1, out ++ o.2), rw (e, p) refl, z, reports-append out o.2 q ∙ r, v, u)

  idle :
      (k : ℕ) (b : RegionProduct) (fs : List Frame)
      → receive_all rx times k gone b fs ≡ some (gone, b, [])
  unfolding receive_all readable
  idle k b [] = refl
  idle k b (f ∷ fs) = rw (idle (suc k) b fs) refl

  head_item :
      (i j : SnapshotItem) (is js : List SnapshotItem) → i ∷ is ≡ j ∷ js → (i ≡ j) × (is ≡ js)
  head_item i j is js e = (cc, cc)

  end_run :
      (fs : List Frame) (k : ℕ) (b : RegionProduct)
      → All NoReply fs
      → items_of fs ≡ snapshot_end ∷ []
      → Catalogue.IsValid b
      → untimed (view b) ≡ untimed (shown t)
      → Completes k (at requester at_region_or_finish "") b fs
  unfolding items_of item_of stop reports receive_all
  end_run [] k b n e v u = ground arith
  end_run (reply result ∷ fs) k b n e v u = absurd n.0
  end_run (asks_sync ∷ fs) k b n e v u =
      after k _ (at requester at_region_or_finish "") b b (sync_rep requester ∷ []) asks_sync fs
        (sync_between rx faithful times t requester k b) refl (end_run fs (suc k) b n.1 e v u)
  end_run (carries i ∷ fs) k b n e v u =
      let (h, _) = head_item i snapshot_end (items_of fs) [] e in
      (
        (gone, b, completed ok ∷ []),
        rw (h, receive_all, snapshot_ends rx faithful times t requester k b, idle (suc k) b fs)
            refl,
        refl,
        refl,
        v,
        u,
      )

  body_some : (sis pis : List SnapshotItem) → body_of t sis pis ≢ []
  body_some [] [] e = cc
  body_some [] (p ∷ pis) e = cc
  body_some (s ∷ sis) pis e = cc

  collect_nil :
      {V : Type 0} (to : V → Option SnapshotItem) (is : List SnapshotItem)
      → collect to [] ≡ some is
      → is ≡ []
  unfolding collect
  collect_nil to is e = cc

  body_run :
      (fs : List Frame) (k : ℕ) (b : RegionProduct) (svcs : List Service) (pls : List Payload)
      (sis pis : List SnapshotItem)
      → is_empty t.region.id ≡ false
      → All NoReply fs
      → collect Service.to_snapshot svcs ≡ some sis
      → collect Payload.to_snapshot pls ≡ some pis
      → items_of fs ≡ body_of t sis pis
      → IsFilling t requester b svcs pls
      → Completes k (at requester at_body t.region.id) b fs
  unfolding items_of item_of reports collect
  body_run [] k b svcs pls sis pis h n es ep e f = absurd (body_some sis pis (sym e))
  body_run (reply result ∷ fs) k b svcs pls sis pis h n es ep e f = absurd n.0
  body_run (asks_sync ∷ fs) k b svcs pls sis pis h n es ep e f =
      after k _ (at requester at_body t.region.id) b b (sync_rep requester ∷ []) asks_sync fs
        (sync_in_body rx faithful times t requester k b t.region.id h) refl
        (body_run fs (suc k) b svcs pls sis pis h n.1 es ep e f)
  body_run (carries i ∷ fs) k b (s ∷ svcs) pls sis pis h n es ep e f =
      let (j, js, ej, ejs, q) = collect_cons Service.to_snapshot s svcs sis es in
      let (hi, hr) =
        head_item i j (items_of fs) (body_of t js pis)
          (subst (λ l. i ∷ items_of fs ≡ body_of t l pis) q e) in
      let (b', m, f') =
        next_service t requester (times k).0 b s svcs pls i (ticking k) (ej ∙ ap some (sym hi)) f in
      after k _ (at requester at_body t.region.id) b b' [] (carries i) fs
        (item_in_body rx faithful times t requester k b t.region.id i h ∙ ap some m) refl
        (body_run fs (suc k) b' svcs pls js pis h n.1 ejs ep hr f')
  body_run (carries i ∷ fs) k b [] (p ∷ pls) sis pis h n es ep e f =
      let (j, js, ej, ejs, q) = collect_cons Payload.to_snapshot p pls pis ep in
      let (hi, hr) = head_item i j (items_of fs) (body_of t [] js) (
        subst (λ l. i ∷ items_of fs ≡ body_of t [] l) q
          (subst (λ l. i ∷ items_of fs ≡ body_of t l pis) (collect_nil Service.to_snapshot sis es)
            e)) in
      let (b', m, f') =
        next_payload t requester (times k).0 b p [] pls i (ej ∙ ap some (sym hi)) f in
      after k _ (at requester at_body t.region.id) b b' [] (carries i) fs
        (item_in_body rx faithful times t requester k b t.region.id i h ∙ ap some m) refl
        (body_run fs (suc k) b' [] pls [] js h n.1 refl ejs hr f')
  body_run (carries i ∷ fs) k b [] [] sis pis h n es ep e f =
      let (hi, hr) =
        head_item i (Region.to_snapshot_end t.region) (items_of fs) (snapshot_end ∷ []) (
          subst (λ l. i ∷ items_of fs ≡ body_of t [] l) (collect_nil Payload.to_snapshot pis ep)
            (subst (λ l. i ∷ items_of fs ≡ body_of t l pis) (collect_nil Service.to_snapshot sis es)
              e)) in
      let (v, u) = filled t requester b f in
      after k _ (at requester at_region_or_finish "") b b [] (carries i) fs
        (item_in_body rx faithful times t requester k b t.region.id i h
          ∙ ap
              (λ i.
                some
                  (body_message builder (times k).0 (at requester at_body t.region.id) b (item i)))
              hi
          ∙ ap some (region_ends rx faithful times t requester (times k).0 b))
        refl (end_run fs (suc k) b n.1 hr v u)

  named : (r : RegionMsg) → Region.to_protobuf t.region ≡ some r → is_empty t.region.id ≡ false
  unfolding Region.to_protobuf
  named r e = ground arith

  -- A region's table, valid, has made a package of itself. A client that has asked for it and has a
  -- new `RegionProduct` as its builder gets an acceptance and then frames that carry the package,
  -- item after item; requests for a signal may stand anywhere behind the beginning of the region.
  -- The frames are decoded faithfully and the clock never reads zero. Then no `CHECK` fails, the
  -- client is stopped at the end, it has told its caller once, of a success, and the product is valid
  -- and shows the table: the same region with its version, the same services and the same payloads
  -- in the same order, all of them but for the times at which they were stored.
  pub transfer_completes :
      (i j : SnapshotItem) (fs : List Frame) (k : ℕ) (built : List SnapshotItem)
      → Invariant.IsValid t
      → RegionTable.build_snapshot t ≡ some built
      → i ∷ j ∷ items_of fs ≡ built
      → All NoReply fs
      → Completes k (waiting requester) RegionProduct.create (reply ok ∷ carries i ∷ carries j ∷ fs)
  unfolding reports
  transfer_completes i j fs k built v e p n =
      let (r, sis, pis, er, es, ep, q) = package_parts t built e in
      let (hi, p') = head_item i snapshot_begin (j ∷ items_of fs) _ (p ∙ q) in
      let (hj, p'') =
        head_item j (region_begin (Region.to_runtime t.region) r) (items_of fs) _ p' in
      let b = record RegionProduct.create {
        region = record t.region { timeval = (times (suc (suc k))).0 };
      } in
      after k _ (at requester at_begin "") RegionProduct.create RegionProduct.create [] (reply ok) _
        (accepted rx faithful times t requester k RegionProduct.create) refl
        (after (suc k) _ (at requester at_region "") RegionProduct.create RegionProduct.create []
          (carries i) _ (rw hi (begins rx faithful times t requester (suc k) RegionProduct.create))
          refl
          (after (suc (suc k)) _ (at requester at_body t.region.id) RegionProduct.create b []
            (carries j) fs (rw hj (opens rx faithful times t requester (suc (suc k)) r er)) refl
            (body_run fs (suc (suc (suc k))) b (Indexed.contents t.services)
              (Indexed.contents t.payloads) sis pis (named r er) n es ep p''
              (start-IsFilling t requester (times (suc (suc k))).0 v))))
