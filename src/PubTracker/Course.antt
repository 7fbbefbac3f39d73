-- ===== src/PubTracker/Course.antt =====
-- Any course of events of a `PubTracker`: src/tracker/pubtracker.cxx and src/tracker/
-- regionfactory.cxx.
use ris.Base.{
  ◌≡◌, refl, String, Option, none, some, List, [], ◌∷◌, str_dec, Option-cases, inl, inr, if_both,
}
use ris.Observer.{Status, ok, failed}
use ris.Containers.Map
use ris.RegionProduct.{RegionProduct}
use ris.RegionProduct.Catalogue.{view}
use ris.RegionTable.Mirror.{handle_all}
use ris.RegionFactory.{RegionFactory}
use ris.PubTracker.{PubTracker}
use ris.PubTracker.Joining.{
  erased, joined, completed_with, failure_reported, presented, present-some,
}
use ris.PubTracker.Steps.{Happening, hears, fills, reports, step, run}
use ris.PubTracker.Invariant.{IsValid, erase-IsValid, fill-IsValid, handle-Keeps}
use ris.TrackerTable.{TrackerTable}
use ris.TrackerTable.Invariant
use ris.TrackerTable.Invariant.Merging.{merge-IsValid}

-- The call returns, and keeps what holds of the tracker and of its table.
abbrev pub Succeeds : Option (PubTracker × TrackerTable) → Type 0
Succeeds r =
    (t : PubTracker) × (table : TrackerTable) × (r ≡ some (t, table))
    × IsValid t
    × Invariant.IsValid table

joined-IsValid :
    (t : PubTracker) (table : TrackerTable) (product : Option RegionProduct)
    → Invariant.IsValid table
    → Invariant.IsValid (elim product [ none ↦ table | some p ↦ joined t table (view p) ])
joined-IsValid t table none v = v
joined-IsValid t table (some p) v =
    if_both Invariant.IsValid t.has_table (merge-IsValid table _ _ _ v) v

module _ (t : PubTracker) (table : TrackerTable) (v : IsValid t) (w : Invariant.IsValid table) where
  fills-Succeeds : (id : String) (p : RegionProduct) → Succeeds (step t table (fills id p))
  unfolding step
  fills-Succeeds id p = elim (Option-cases (Map.find str_dec id t.factories)) [
    | inl e ↦ (t, table, rw (e, step) refl, v, w)
    | inr (f, e) ↦ (_, table, rw (e, step) refl, fill-IsValid t id f p e v, w)
  ]

  success-Succeeds :
      (id : String) (f : RegionFactory)
      → Map.find str_dec id t.factories ≡ some f
      → Succeeds (step t table (reports id ok))
  unfolding step
  success-Succeeds id f e =
      let r = v.ready id f e in
      let (p, hp) = r.product in
      let (c, hc, a) = r.subcacher in
      let ((c', status, es), q) = present-some c p.region.version a in
      let h = presented t table id f v e p c c' status es hp hc q in
      let product : Option RegionProduct = elim status [
        | ok ↦ some (handle_all p es)
        | failed ↦ none
      ] in
      (
        erased t id,
        _,
        rw (e, step, h) (completed_with t table id f v e product),
        erase-IsValid t id v,
        joined-IsValid t table product w,
      )

  reports-Succeeds : (id : String) (status : Status) → Succeeds (step t table (reports id status))
  unfolding step
  reports-Succeeds id status = elim (Option-cases (Map.find str_dec id t.factories)) [
    | inl e ↦ (t, table, rw (e, step) refl, v, w)
    | inr (f, e) ↦ elim status as (λ k. Succeeds (step t table (reports id k))) [
      | ok ↦ success-Succeeds id f e
      | failed ↦ (erased t id, table, failure_reported t table id f v e, erase-IsValid t id v, w)
    ]
  ]

  step-Succeeds : (h : Happening) → Succeeds (step t table h)
  unfolding step
  step-Succeeds (hears e client_starts) =
      let (t', q, v') = handle-Keeps t e client_starts v in (t', table, rw q refl, v', w)
  step-Succeeds (fills id p) = fills-Succeeds id p
  step-Succeeds (reports id status) = reports-Succeeds id status

-- From a tracker whose factories are within its capacity, one for each region and each started for
-- its region, and from a valid table, any course of calls, transfers and reports runs with no failed
-- `CHECK` and no null pointer read, and keeps all of this.
pub happenings-Succeed :
    (t : PubTracker) (table : TrackerTable) (hs : List Happening)
    → IsValid t
    → Invariant.IsValid table
    → Succeeds (run t table hs)
unfolding run
happenings-Succeed t table [] v w = (t, table, refl, v, w)
happenings-Succeed t table (h ∷ hs) v w =
    let (t', table', e, v', w') = step-Succeeds t table v w h in
    let (t'', table'', e', v'', w'') = happenings-Succeed t' table' hs v' w' in
    (t'', table'', rw (e, e') refl, v'', w'')
