-- ===== src/TrackerTable/Invariant/RegionPayloads.antt =====
-- The payloads of the tracker's table: the insertion, the removal, and the second loop of
-- `doRmRegion`.
use ris.Base.{
  ite_both, ℕ, ◌≡◌, ◌≢◌, refl, sym, ◌∙◌, String, Option, some, none, List, [], ◌∷◌, true, arith,
  str_dec, ℕ_discrete, subst, Option-cases, inl, inr, ite,
}
use ris.Containers.NodeList
use ris.Containers.NodeList.{mem, mem-unlink, unlink, Distinct}
use ris.Containers.Indexed
use ris.Containers.Indexed.{Indexed}
use ris.Containers.Indexed.Holds.{Holds-append, Holds-touch, Holds-remove}
use ris.RiTypes.Payload.{Payload}
use ris.TrackerTable.{TrackerTable}
use ris.TrackerTable.Payloads.{put_payload, do_rm_payload, rm_payload_of, rm_payloads_of}
use ris.TrackerTable.Invariant.{HasPayloads}

abbrev pub owner_at : TrackerTable → ℕ → Option ℕ
owner_at t i = (Indexed.get i t.payloads).region

module _ (live : List ℕ) where
  -- The insertion of a payload of a registered region.
  pub put_payload-HasPayloads :
      (t : TrackerTable) (regit : ℕ) (pl : Payload)
      → mem regit live ≡ true
      → HasPayloads live t
      → HasPayloads live (put_payload t regit pl)
  unfolding put_payload
  put_payload-HasPayloads t regit pl r v =
      elim (Option-cases (Indexed.find str_dec pl.id t.payloads)) [
        | inl e ↦
            rw (e, put_payload)
              (Holds-append str_dec _ _ (record { region = some regit; payload = pl }) t.payloads e
                (regit, refl, r) v)
        | inr (i, e) ↦
            rw (e, put_payload)
              (Holds-touch str_dec _ _ i (record { region = some regit; payload = pl }) t.payloads
                (v.coherent.sound pl.id i e).0 (sym (v.coherent.sound pl.id i e).1) (regit, refl, r)
                v)
      ]

  rm_at :
      (t : TrackerTable) (pl : String) (regit it : ℕ) (r : Option ℕ)
      → HasPayloads live t
      → Indexed.find str_dec pl t.payloads ≡ some it
      → HasPayloads live (elim r [
        | none ↦ t
        | some p ↦
            ite
              (ℕ_discrete p regit)
              (record t { payloads = Indexed.remove str_dec pl it t.payloads })
              t
      ])
  rm_at t pl regit it none v e = v
  rm_at t pl regit it (some p) v e =
      ite_both (HasPayloads live) (ℕ_discrete p regit)
        (Holds-remove str_dec _ _ pl it t.payloads e v) v

  -- The removal of a payload of any region.
  pub do_rm_payload-HasPayloads :
      (t : TrackerTable) (reg pl : String)
      → HasPayloads live t
      → HasPayloads live (do_rm_payload t reg pl)
  unfolding do_rm_payload
  do_rm_payload-HasPayloads t reg pl v = elim (Option-cases (Indexed.find str_dec reg t.regions)) [
    | inl e ↦ rw (e, do_rm_payload) v
    | inr (regit, e) ↦ elim (Option-cases (Indexed.find str_dec pl t.payloads)) [
      | inl f ↦ rw (e, do_rm_payload, f) v
      | inr (it, f) ↦ rw (e, do_rm_payload, f) (rm_at t pl regit it (owner_at t it) v f)
    ]
  ]

  -- What a round at the node `it` leaves: the node is gone if it belongs to the region, and nothing
  -- else changes.
  pub record Round (regptr it : ℕ) (t u : TrackerTable) : Type 0 where
    pub valid : HasPayloads live u
    pub fewer : (j : ℕ) → mem j u.payloads.list.order ≡ true → mem j t.payloads.list.order ≡ true
    pub rest :
        (j : ℕ) → it ≢ j → mem j t.payloads.list.order ≡ true → mem j u.payloads.list.order ≡ true
    pub owners : (j : ℕ) → owner_at u j ≡ owner_at t j
    pub gone : mem it u.payloads.list.order ≡ true → owner_at u it ≢ some regptr
    pub stays : owner_at t it ≢ some regptr → mem it u.payloads.list.order ≡ true
    pub regions : u.regions ≡ t.regions
    pub services : u.services ≡ t.services
    pub services_index : u.services_index ≡ t.services_index
    pub has_next : u.has_next ≡ t.has_next

  module _ (regptr : ℕ) where
    rm_payload_of-Round :
        (it : ℕ) (t : TrackerTable)
        → HasPayloads live t
        → mem it t.payloads.list.order ≡ true
        → (u : TrackerTable) × (rm_payload_of regptr it t ≡ some u) × Round regptr it t u
    unfolding rm_payload_of Indexed.remove NodeList.erase
    rm_payload_of-Round it t v m =
        let (p, r, h) = v.every it m in
        let f = v.coherent.complete it m in
        let id = (Indexed.get it t.payloads).payload.id in
        elim (ℕ_discrete p regptr) [
          | yes q ↦ (
            record t { payloads = Indexed.remove str_dec id it t.payloads },
            ground arith,
            record {
              valid = Holds-remove str_dec _ _ id it t.payloads f v;
              fewer = λ j k.
                  ground (arith, mem-unlink it j t.payloads.list.order v.coherent.linked.distinct);
              rest = λ j d k.
                  ground (arith, mem-unlink it j t.payloads.list.order v.coherent.linked.distinct);
              owners = λ j. refl;
              gone = λ k.
                  ground (arith, mem-unlink it it t.payloads.list.order v.coherent.linked.distinct);
              stays = λ d. absurd (d (ground arith));
              regions = refl;
              services = refl;
              services_index = refl;
              has_next = refl;
            },
          )
          | no q ↦ (
            t,
            ground arith,
            record {
              valid = v;
              fewer = λ j k. k;
              rest = λ j d k. k;
              owners = λ j. refl;
              gone = λ k e. ground arith;
              stays = λ d. m;
              regions = refl;
              services = refl;
              services_index = refl;
              has_next = refl;
            },
          )
        ]

    -- What the loop leaves.
    pub record Swept (t u : TrackerTable) : Type 0 where
      pub valid : HasPayloads live u
      pub gone : (j : ℕ) → mem j u.payloads.list.order ≡ true → owner_at u j ≢ some regptr
      pub others :
          (j : ℕ)
          → mem j t.payloads.list.order ≡ true
          → owner_at t j ≢ some regptr
          → mem j u.payloads.list.order ≡ true
      pub owners : (j : ℕ) → owner_at u j ≡ owner_at t j
      pub regions : u.regions ≡ t.regions
      pub services : u.services ≡ t.services
      pub services_index : u.services_index ≡ t.services_index
      pub has_next : u.has_next ≡ t.has_next

    rm_payloads_of-Swept :
        (its : List ℕ) (t : TrackerTable)
        → HasPayloads live t
        → Distinct its
        → ((j : ℕ) → mem j its ≡ true → mem j t.payloads.list.order ≡ true)
        → ((j : ℕ)
            → mem j t.payloads.list.order ≡ true
            → owner_at t j ≡ some regptr
            → mem j its ≡ true)
        → (u : TrackerTable) × (rm_payloads_of regptr its t ≡ some u) × Swept t u
    unfolding rm_payloads_of mem
    rm_payloads_of-Swept [] t v d sub all = (
      t,
      refl,
      record {
        valid = v;
        gone = λ j m e. cc (all j m e);
        others = λ j m n. m;
        owners = λ j. refl;
        regions = refl;
        services = refl;
        services_index = refl;
        has_next = refl;
      },
    )
    rm_payloads_of-Swept (it ∷ its) t v d sub all =
        let (w, e, r) = rm_payload_of-Round it t v (sub it (ground arith)) in
        let (u, f, s) =
          rm_payloads_of-Swept its w r.valid d.1
            (λ j m. r.rest j (λ q. ground arith) (sub j (ground arith)))
            (λ j m n. ground (arith, all j (r.fewer j m) (sym (r.owners j) ∙ n), r.gone)) in
        (
          u,
          rw (e, f) refl,
          record {
            valid = s.valid;
            gone = s.gone;
            others = λ j m n.
                s.others j
                  (elim (ℕ_discrete it j) [
                    | yes q ↦
                        subst (λ i. mem i w.payloads.list.order ≡ true) q
                          (r.stays (λ z. n (subst (λ i. owner_at t i ≡ some regptr) q z)))
                    | no q ↦ r.rest j q m
                  ])
                  (λ z. n (sym (r.owners j) ∙ z));
            owners = λ j. s.owners j ∙ r.owners j;
            regions = s.regions ∙ r.regions;
            services = s.services ∙ r.services;
            services_index = s.services_index ∙ r.services_index;
            has_next = s.has_next ∙ r.has_next;
          },
        )

    -- The whole loop.
    pub rm_payloads_of_all :
        (t : TrackerTable)
        → HasPayloads live t
        → (u : TrackerTable) × (rm_payloads_of regptr t.payloads.list.order t ≡ some u) × Swept t u
    rm_payloads_of_all t v =
        rm_payloads_of-Swept t.payloads.list.order t v v.coherent.linked.distinct (λ j m. m)
          (λ j m e. m)
