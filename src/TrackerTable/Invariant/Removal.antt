-- ===== src/TrackerTable/Invariant/Removal.antt =====
-- `doRmRegion` on a valid table: it fails no `CHECK`, and it takes the region with all that it owns
-- and nothing else.
use ris.Base.{
  ℕ, ◌≡◌, ◌≢◌, refl, sym, ◌∙◌, String, Option, some, List, true, arith, str_dec, ap, subst,
}
use ris.Containers.NodeList
use ris.Containers.NodeList.{mem, mem-unlink, unlink, Distinct}
use ris.Containers.Indexed
use ris.Containers.Indexed.{Indexed, IsCoherent, remove-IsCoherent}
use ris.TrackerTable.{TrackerTable, RegionPayload}
use ris.TrackerTable.Services.{rm_services_of}
use ris.TrackerTable.Payloads.{rm_payloads_of}
use ris.TrackerTable.Regions.{do_rm_region}
use ris.TrackerTable.Invariant.{IsValid, HasServices, HasPayloads, Owned, region_at}
use ris.TrackerTable.Invariant.Carry.{services_with, payloads_with}
use ris.TrackerTable.Invariant.RegionServices.{rm_services_of_all}
use ris.TrackerTable.Invariant.RegionPayloads.{rm_payloads_of_all, owner_at}

Owned-less :
    (live : List ℕ) (it : ℕ) (r : Option ℕ)
    → Distinct live
    → r ≢ some it
    → Owned live r
    → Owned (unlink it live) r
Owned-less live it r d n (p, e, m) = (p, e, ground (arith, mem-unlink it p live d))

services_less :
    (live : List ℕ) (it : ℕ) (t : TrackerTable)
    → Distinct live
    → ((j : ℕ) → mem j t.services.order ≡ true → region_at t j ≢ some it)
    → HasServices live t
    → HasServices (unlink it live) t
services_less live it t d n v = record {
  linked = v.linked;
  owned = λ i m. Owned-less live it (region_at t i) d (n i m) (v.owned i m);
  listed = v.listed;
  entries = v.entries;
  single = v.single;
}

payloads_less :
    (live : List ℕ) (it : ℕ) (t : TrackerTable)
    → Distinct live
    → ((j : ℕ) → mem j t.payloads.list.order ≡ true → owner_at t j ≢ some it)
    → HasPayloads live t
    → HasPayloads (unlink it live) t
payloads_less live it t d n v = record {
  coherent = v.coherent;
  every = λ i m. Owned-less live it (owner_at t i) d (n i m) (v.every i m);
}

-- The table `u` is `t` without the region `region` at the node `it`.
pub record Removed (region : String) (it : ℕ) (t u : TrackerTable) : Type 0 where
  pub valid : IsValid u
  pub regions : u.regions ≡ Indexed.remove str_dec region it t.regions
  pub services :
      (j : ℕ)
      → mem j t.services.order ≡ true
      → region_at t j ≢ some it
      → (mem j u.services.order ≡ true) × (region_at u j ≡ region_at t j)
  pub payloads :
      (j : ℕ)
      → mem j t.payloads.list.order ≡ true
      → owner_at t j ≢ some it
      → (mem j u.payloads.list.order ≡ true) × (owner_at u j ≡ owner_at t j)
  pub no_service : (j : ℕ) → mem j u.services.order ≡ true → region_at u j ≢ some it
  pub no_payload : (j : ℕ) → mem j u.payloads.list.order ≡ true → owner_at u j ≢ some it
  pub has_next : u.has_next ≡ t.has_next

do_rm_region_lem :
    (t t2 u : TrackerTable) (region : String) (it : ℕ)
    → Indexed.find str_dec region t.regions ≡ some it
    → rm_services_of it t.services.order
        (record t { regions = Indexed.remove str_dec region it t.regions })
      ≡ some t2
    → rm_payloads_of it t2.payloads.list.order t2 ≡ some u
    → do_rm_region t region ≡ some u
unfolding do_rm_region
do_rm_region_lem t t2 u region it e f g = ground arith

-- On a valid table the removal of a registered region fails no `CHECK`. It leaves a valid table,
-- without the region and without its services and payloads, and with the services and the payloads
-- of all other regions.
pub do_rm_region-Removed :
    (t : TrackerTable) (region : String) (it : ℕ)
    → Indexed.find str_dec region t.regions ≡ some it
    → IsValid t
    → (u : TrackerTable) × (do_rm_region t region ≡ some u) × Removed region it t u
unfolding Indexed.remove NodeList.erase
do_rm_region-Removed t region it e v =
    let live = t.regions.list.order in
    let d = v.regions.linked.distinct in
    let t1 : TrackerTable = record t { regions = Indexed.remove str_dec region it t.regions } in
    let (t2, f, s) =
      rm_services_of_all live it t1
        (services_with live live t t1 refl refl (λ p m. m) v.services) in
    let (u, g, p) =
      rm_payloads_of_all live it t2
        (payloads_with live live t t2 s.payloads (λ p m. m) v.payloads) in
    let rs : u.regions ≡ t1.regions = p.regions ∙ s.regions in
    (
      u,
      do_rm_region_lem t t2 u region it e f g,
      record {
        valid = record {
          regions =
              subst (IsCoherent str_dec (λ r. r.id)) (sym rs)
                (remove-IsCoherent str_dec (λ r. r.id) region it t.regions e v.regions);
          services =
              subst (λ r. HasServices r.list.order u) (sym rs)
                (services_with (unlink it live) (unlink it live) t2 u p.services p.services_index
                  (λ p m. m) (services_less live it t2 d s.gone s.valid));
          payloads =
              subst (λ r. HasPayloads r.list.order u) (sym rs)
                (payloads_less live it u d p.gone p.valid);
        };
        regions = rs;
        services = λ j m n. (
          ap (λ w. mem j w.order) p.services ∙ s.others j m n,
          ap (λ w. (w.cell j).region) p.services ∙ s.owners j,
        );
        payloads = λ j m n. (
          p.others j (ap (λ w. mem j w.list.order) s.payloads ∙ m) (λ z. n (
              sym (ap (λ (w : Indexed String RegionPayload). (Indexed.get j w).region) s.payloads)
              ∙ z)),
          p.owners j
              ∙ ap (λ (w : Indexed String RegionPayload). (Indexed.get j w).region) s.payloads,
        );
        no_service = λ j m n.
            s.gone j (ap (λ w. mem j w.order) (sym p.services) ∙ m)
              (ap (λ w. (w.cell j).region) (sym p.services) ∙ n);
        no_payload = p.gone;
        has_next = p.has_next ∙ s.has_next;
      },
    )
