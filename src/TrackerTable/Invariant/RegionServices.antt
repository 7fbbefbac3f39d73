-- ===== src/TrackerTable/Invariant/RegionServices.antt =====
-- The first loop of `doRmRegion`: no `CHECK` fails, and the services of the region are gone.
use ris.Base.{ℕ, ◌≡◌, ◌≢◌, refl, sym, ◌∙◌, some, List, [], ◌∷◌, true, arith, ℕ_discrete, subst}
use ris.Containers.NodeList
use ris.Containers.NodeList.{mem, mem-unlink, unlink, Distinct}
use ris.TrackerTable.{TrackerTable}
use ris.TrackerTable.Services
use ris.TrackerTable.Services.{rm_service_of, rm_services_of}
use ris.TrackerTable.Invariant.{name_at, region_at, HasServices}
use ris.TrackerTable.Invariant.Unlink.{unlink_service-HasServices}

-- What a round at the node `it` leaves: the node is gone if it belongs to the region, and nothing
-- else changes.
pub record Round (live : List ℕ) (regptr it : ℕ) (t u : TrackerTable) : Type 0 where
  pub valid : HasServices live u
  pub fewer : (j : ℕ) → mem j u.services.order ≡ true → mem j t.services.order ≡ true
  pub rest : (j : ℕ) → it ≢ j → mem j t.services.order ≡ true → mem j u.services.order ≡ true
  pub owners : (j : ℕ) → region_at u j ≡ region_at t j
  pub gone : mem it u.services.order ≡ true → region_at u it ≢ some regptr
  pub stays : region_at t it ≢ some regptr → mem it u.services.order ≡ true
  pub regions : u.regions ≡ t.regions
  pub payloads : u.payloads ≡ t.payloads
  pub has_next : u.has_next ≡ t.has_next

module _ (live : List ℕ) (regptr : ℕ) where
  rm_service_of-Round :
      (it : ℕ) (t : TrackerTable)
      → HasServices live t
      → mem it t.services.order ≡ true
      → (u : TrackerTable) × (rm_service_of regptr it t ≡ some u) × Round live regptr it t u
  unfolding rm_service_of Services.unlink_service NodeList.erase
  rm_service_of-Round it t v m =
      let (p, r, h) = v.owned it m in
      let (l, f, n) = v.listed it m in
      elim (ℕ_discrete p regptr) [
        | yes q ↦ (
          Services.unlink_service t (name_at t it) l it,
          ground arith,
          record {
            valid = unlink_service-HasServices live t v (name_at t it) l it f n;
            fewer = λ j k. ground (arith, mem-unlink it j t.services.order v.linked.distinct);
            rest = λ j d k. ground (arith, mem-unlink it j t.services.order v.linked.distinct);
            owners = λ j. refl;
            gone = λ k. ground (arith, mem-unlink it it t.services.order v.linked.distinct);
            stays = λ d. absurd (d (ground arith));
            regions = refl;
            payloads = refl;
            has_next = refl;
          },
        )
        | no q ↦ (
          t,
          ground arith,
          record {
            valid = v;
            fewer = λ j k. k;
            rest = λ j d k. k;
            owners = λ j. refl;
            gone = λ k e. ground arith;
            stays = λ d. m;
            regions = refl;
            payloads = refl;
            has_next = refl;
          },
        )
      ]

  -- What the loop leaves.
  pub record Swept (t u : TrackerTable) : Type 0 where
    pub valid : HasServices live u
    pub gone : (j : ℕ) → mem j u.services.order ≡ true → region_at u j ≢ some regptr
    pub fewer : (j : ℕ) → mem j u.services.order ≡ true → mem j t.services.order ≡ true
    pub others :
        (j : ℕ)
        → mem j t.services.order ≡ true
        → region_at t j ≢ some regptr
        → mem j u.services.order ≡ true
    pub owners : (j : ℕ) → region_at u j ≡ region_at t j
    pub regions : u.regions ≡ t.regions
    pub payloads : u.payloads ≡ t.payloads
    pub has_next : u.has_next ≡ t.has_next

  rm_services_of-Swept :
      (its : List ℕ) (t : TrackerTable)
      → HasServices live t
      → Distinct its
      → ((j : ℕ) → mem j its ≡ true → mem j t.services.order ≡ true)
      → ((j : ℕ) → mem j t.services.order ≡ true → region_at t j ≡ some regptr → mem j its ≡ true)
      → (u : TrackerTable) × (rm_services_of regptr its t ≡ some u) × Swept t u
  unfolding rm_services_of mem
  rm_services_of-Swept [] t v d sub all = (
    t,
    refl,
    record {
      valid = v;
      gone = λ j m e. cc (all j m e);
      fewer = λ j m. m;
      others = λ j m n. m;
      owners = λ j. refl;
      regions = refl;
      payloads = refl;
      has_next = refl;
    },
  )
  rm_services_of-Swept (it ∷ its) t v d sub all =
      let (w, e, r) = rm_service_of-Round it t v (sub it (ground arith)) in
      let (u, f, s) =
        rm_services_of-Swept its w r.valid d.1
          (λ j m. r.rest j (λ q. ground arith) (sub j (ground arith)))
          (λ j m n. ground (arith, all j (r.fewer j m) (sym (r.owners j) ∙ n), r.gone)) in
      (
        u,
        rw (e, f) refl,
        record {
          valid = s.valid;
          gone = s.gone;
          fewer = λ j m. r.fewer j (s.fewer j m);
          others = λ j m n.
              s.others j
                (elim (ℕ_discrete it j) [
                  | yes q ↦
                      subst (λ i. mem i w.services.order ≡ true) q
                        (r.stays (λ z. n (subst (λ i. region_at t i ≡ some regptr) q z)))
                  | no q ↦ r.rest j q m
                ])
                (λ z. n (sym (r.owners j) ∙ z));
          owners = λ j. s.owners j ∙ r.owners j;
          regions = s.regions ∙ r.regions;
          payloads = s.payloads ∙ r.payloads;
          has_next = s.has_next ∙ r.has_next;
        },
      )

  -- The whole loop.
  pub rm_services_of_all :
      (t : TrackerTable)
      → HasServices live t
      → (u : TrackerTable) × (rm_services_of regptr t.services.order t ≡ some u) × Swept t u
  rm_services_of_all t v =
      rm_services_of-Swept t.services.order t v v.linked.distinct (λ j m. m) (λ j m e. m)
