-- ===== src/TrackerTable/Invariant/Search.antt =====
-- `findRegionService` on a valid table: it unlinks nothing, and finds the entry of the region.
use ris.Base.{ℕ, ◌≡◌, ◌≢◌, refl, String, Option, some, none, List, [], ◌∷◌, true, arith, str_dec}
use ris.Containers.NodeList.{mem}
use ris.Containers.Indexed
use ris.TrackerTable.{TrackerTable}
use ris.TrackerTable.Services.{find_region_service}
use ris.TrackerTable.Invariant.{region_at}

module _ (t : TrackerTable) (reg : String) where
  abbrev pub AllOwned : List ℕ → Type 0
  AllOwned l = (i : ℕ) → mem i l ≡ true → (p : ℕ) × (region_at t i ≡ some p)

  AllOwned-tail : (i : ℕ) (l : List ℕ) → AllOwned (i ∷ l) → AllOwned l
  unfolding mem
  AllOwned-tail i l o j h = o j (ground arith)

  AllOwned-head : (i : ℕ) (l : List ℕ) → AllOwned (i ∷ l) → (p : ℕ) × (region_at t i ≡ some p)
  unfolding mem
  AllOwned-head i l o = o i (ground arith)

  pub find_region_service-kept : (l : List ℕ) → AllOwned l → (find_region_service t l reg).0 ≡ l
  unfolding find_region_service
  find_region_service-kept [] o = refl
  find_region_service-kept (i ∷ l) o =
      let (p, e) = AllOwned-head i l o in
      ground (arith, find_region_service-kept l (AllOwned-tail i l o))

  Found : List ℕ → ℕ → Type 0
  Found l it =
      (mem it l ≡ true)
      × ((p : ℕ) × (region_at t it ≡ some p) × ((Indexed.get p t.regions).id ≡ reg))

  Found-cons :
      (i : ℕ) (l : List ℕ) (it : ℕ) (r : Option ℕ)
      → region_at t i ≡ r
      → (find_region_service t (i ∷ l) reg).1 ≡ some it
      → ((find_region_service t l reg).1 ≡ some it → Found l it)
      → Found (i ∷ l) it
  unfolding find_region_service mem Found
  Found-cons i l it none q e ih = ground arith
  Found-cons i l it (some p) q e ih = elim (str_dec (Indexed.get p t.regions).id reg) [
    | yes h ↦ (ground arith, (p, ground arith, h))
    | no h ↦ let (m, w) = ih (ground arith) in (ground arith, w)
  ]

  pub find_region_service-found :
      (l : List ℕ) (it : ℕ)
      → (find_region_service t l reg).1 ≡ some it
      → (mem it l ≡ true)
        × ((p : ℕ) × (region_at t it ≡ some p) × ((Indexed.get p t.regions).id ≡ reg))
  unfolding find_region_service mem Found
  find_region_service-found [] it e = cc
  find_region_service-found (i ∷ l) it e =
      Found-cons i l it (region_at t i) refl e (find_region_service-found l it)

  pub find_region_service-missing :
      (l : List ℕ) (i p : ℕ)
      → (find_region_service t l reg).1 ≡ none
      → mem i l ≡ true
      → region_at t i ≡ some p
      → (Indexed.get p t.regions).id ≢ reg
  unfolding find_region_service mem
  find_region_service-missing [] i p e m r = cc
  find_region_service-missing (j ∷ l) i p e m r = ground (arith, find_region_service-missing l i p)
