-- ===== src/PubTracker/Joining.antt =====
-- How the snapshot of a region and its updates become a part of the tracker's table: src/tracker/
-- pubtracker.cxx and src/tracker/regionfactory.cxx.
use ris.Base.{
  ℕ, ◌+◌, ◌==◌, ◌≡◌, refl, sym, ◌∙◌, ap, subst, String, Option, none, some, List, [], ◌∷◌, arith,
  All, str_dec, Option-cases, Bool-cases, inl, inr, if◌then◌else◌,
}
use ris.Words.{u32}
use ris.Observer.{Event, Status, ok, failed}
use ris.Containers.Map
use ris.PubData.{PubData}
use ris.RegionSubCacher
use ris.RegionSubCacher.{RegionSubCacher, drop_until, present_from}
use ris.RegionProduct.{RegionProduct}
use ris.RegionProduct.Catalogue
use ris.RegionProduct.Catalogue.{Catalogue, view}
use ris.RegionTable.Mirror.{handle_all, handle_all-hear_all}
use ris.RegionTable.Updates.{hear_all}
use ris.RegionFactory
use ris.RegionFactory.{RegionFactory}
use ris.PubTracker
use ris.PubTracker.{PubTracker}
use ris.PubTracker.Steps.{reports, step}
use ris.PubTracker.Invariant.{IsKnown, AllKnown, IsValid}
use ris.TrackerTable.{TrackerTable}
use ris.TrackerTable.Regions.{merge}

-- A queue of updates that are known is presented without a failed `CHECK`.
present_from-some :
    (region : String) (expect : ℕ) (ds : List PubData)
    → All IsKnown ds
    → (r : List Event × List PubData) × (present_from region expect ds ≡ some r)
unfolding present_from
present_from-some region expect [] a = (_, refl)
present_from-some region expect (d ∷ ds) a =
    let (e, h) = a.0 region in
    let (r, q) = present_from-some region (u32 (expect + 1)) ds a.1 in
    elim (Bool-cases (d.version == expect)) [
      | inl k ↦ ((e ∷ r.0, r.1), rw (k, h, q) refl)
      | inr k ↦ (([], d ∷ ds), rw k refl)
    ]

drop_until-AllKnown :
    (version : ℕ) (ds rest : List PubData)
    → drop_until version ds ≡ some rest
    → All IsKnown ds
    → All IsKnown rest
unfolding drop_until
drop_until-AllKnown version [] rest e a = cc
drop_until-AllKnown version (d ∷ ds) rest e a = elim (Bool-cases (d.version == version)) [
  | inl k ↦ subst (All IsKnown) (ground arith) a.1
  | inr k ↦ drop_until-AllKnown version ds rest (ground arith) a.1
]

pub present-some :
    (c : RegionSubCacher) (version : ℕ)
    → AllKnown c
    → (r : RegionSubCacher × Status × List Event) × (RegionSubCacher.present c version ≡ some r)
unfolding RegionSubCacher.present
present-some c version a = elim (Option-cases (drop_until version c.updates)) [
  | inl h ↦ ((record c { updates = [] }, failed, []), rw (h, RegionSubCacher.present) refl)
  | inr (ds, h) ↦
      let (r, q) =
        present_from-some c.region_id (u32 (version + 1)) ds
          (drop_until-AllKnown version c.updates ds h a) in
      (
        (record c { updates = [] }, RegionSubCacher.left_over r.1, r.0),
        rw (h, RegionSubCacher.present, q) refl,
      )
]

abbrev pub erased : PubTracker → String → PubTracker
erased t id = record t { factories = Map.erase str_dec id t.factories }

-- The table with a catalogue as a new region, if the tracker has a table.
abbrev pub joined : PubTracker → TrackerTable → Catalogue → TrackerTable
joined t table c = if t.has_table then (merge table c.region c.services c.payloads).0 else table

-- The table after a report, by the status with which the queue was presented.
abbrev pub outcome : PubTracker → TrackerTable → Catalogue → Status → TrackerTable
outcome t table c ok = joined t table c
outcome t table c failed = table

module _ (t : PubTracker) (table : TrackerTable) (id : String) (f : RegionFactory) (v : IsValid t)
    (e : Map.find str_dec id t.factories ≡ some f) where
  completed_for :
      (product : Option RegionProduct)
      → PubTracker.on_factory_completed t table id product
        ≡ some (erased t id, elim product [ none ↦ table | some p ↦ joined t table (view p) ])
  unfolding PubTracker.on_factory_completed PubTracker.merge_product
  completed_for none = rw (e, PubTracker.on_factory_completed) refl
  completed_for (some p) = rw (e, PubTracker.on_factory_completed) refl

  pub completed_with :
      (product : Option RegionProduct)
      → PubTracker.on_factory_completed t table f.region_id product
        ≡ some (erased t id, elim product [ none ↦ table | some p ↦ joined t table (view p) ])
  unfolding PubTracker.on_factory_completed PubTracker.merge_product
  completed_with product =
      subst
        (λ reg.
          PubTracker.on_factory_completed t table reg product
          ≡ some (erased t id, elim product [ none ↦ table | some p ↦ joined t table (view p) ]))
        (sym (v.ready id f e).named) (completed_for product)

  pub failure_reported : step t table (reports id failed) ≡ some (erased t id, table)
  unfolding step RegionFactory.on_snapshot_completed
  failure_reported = rw (e, step) (completed_with none)

  same_queue : (c : RegionSubCacher) → f.subcacher ≡ some c → AllKnown c
  same_queue c h =
      let (d, q, a) = (v.ready id f e).subcacher in
      let k : d ≡ c = ground arith in subst AllKnown k a

  pub presented :
      (p : RegionProduct) (c c' : RegionSubCacher) (status : Status) (es : List Event)
      → f.product ≡ some p
      → f.subcacher ≡ some c
      → RegionSubCacher.present c p.region.version ≡ some (c', status, es)
      → RegionFactory.on_snapshot_completed f ok
        ≡ some (
          RegionFactory.stop f,
          f.region_id,
          elim status [ ok ↦ some (handle_all p es) | failed ↦ none ],
        )
  unfolding RegionFactory.on_snapshot_completed RegionFactory.present_to
  presented p c c' status es hp hc q = rw (hp, hc, RegionFactory.present_to, q) refl

  reported :
      (p : RegionProduct) (c' : RegionSubCacher) (status : Status) (es : List Event)
      → Catalogue.IsValid p
      → RegionFactory.on_snapshot_completed f ok
        ≡ some (
          RegionFactory.stop f,
          f.region_id,
          elim status [ ok ↦ some (handle_all p es) | failed ↦ none ],
        )
      → step t table (reports id ok)
        ≡ some (erased t id, outcome t table (hear_all (view p) es) status)
  unfolding step
  reported p c' ok es w h =
      rw (e, step, h) (completed_with (some (handle_all p es)))
      ∙ ap (λ c. some (erased t id, joined t table c)) (handle_all-hear_all p es w).1
  reported p c' failed es w h = rw (e, step, h) (completed_with none)

  -- The client of a factory reports a success, the product is valid, and the queue of the factory
  -- presents itself with a status and calls. No `CHECK` fails, the factory is gone, and if the status
  -- is a success and the tracker has its table, then the table has been merged with what the product
  -- showed at the report, brought up to date by the calls; otherwise the table is as it was.
  pub success_reported :
      (p : RegionProduct) (c : RegionSubCacher)
      → f.product ≡ some p
      → f.subcacher ≡ some c
      → Catalogue.IsValid p
      → (c' : RegionSubCacher) × (status : Status) × (es : List Event) × (RegionSubCacher.present c
            p.region.version
          ≡ some (c', status, es))
        × (step t table (reports id ok)
            ≡ some (erased t id, outcome t table (hear_all (view p) es) status))
  success_reported p c hp hc w =
      let ((c', status, es), q) = present-some c p.region.version (same_queue c hc) in
      (c', status, es, q, reported p c' status es w (presented p c c' status es hp hc q))
