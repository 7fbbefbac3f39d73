-- ===== src/TrackerTable/Invariant.antt =====
-- What holds of the tracker's table between two calls. The children show that each operation keeps
-- it.
pub mod Search
pub mod Link
pub mod Unlink
pub mod Services
pub mod RegionServices
pub mod RegionPayloads
pub mod Carry
pub mod Removal
pub mod Operations
pub mod Handling
pub mod Expiry
pub mod Routing
pub mod Merging
pub mod History
use ris.Base.{ℕ, ◌≡◌, refl, String, Option, some, none, List, [], ◌∷◌, true, str_dec}
use ris.Containers.Map
use ris.Containers.NodeList
use ris.Containers.NodeList.{NodeList, mem, Distinct, IsLinked}
use ris.Containers.Indexed
use ris.Containers.Indexed.{IsCoherent}
use ris.Containers.Indexed.Holds.{Holds}
use ris.RiTypes.Region.{Region}
use ris.RiTypes.Service.{Service}
use ris.TrackerTable
use ris.TrackerTable.{TrackerTable, RegionService, RegionPayload}

-- The region is in the list of regions: neither null nor removed.
abbrev pub Owned : List ℕ → Option ℕ → Type 0
Owned regions r = (p : ℕ) × (r ≡ some p) × (mem p regions ≡ true)

abbrev pub name_at : TrackerTable → ℕ → String
name_at t i = (t.services.cell i).service.name

abbrev pub region_at : TrackerTable → ℕ → Option ℕ
region_at t i = (t.services.cell i).region

-- The nodes of one name in the index: there is one, none stands twice, and each is a node of the
-- list with that name.
pub record IsEntry (t : TrackerTable) (n : String) (l : List ℕ) : Type 0 where
  pub some_node : (l ≡ []) → ⊥
  pub distinct : Distinct l
  pub nodes : (i : ℕ) → mem i l ≡ true → (mem i t.services.order ≡ true) × (name_at t i ≡ n)

-- Every service belongs to a region of `live`, is in the index under its name, and is the only
-- one of its name in its region.
pub record HasServices (live : List ℕ) (t : TrackerTable) : Type 0 where
  pub linked : IsLinked t.services
  pub owned : (i : ℕ) → mem i t.services.order ≡ true → Owned live (region_at t i)
  pub listed :
      (i : ℕ)
      → mem i t.services.order ≡ true
      → (l : List ℕ) × (Map.find str_dec (name_at t i) t.services_index ≡ some l) × (mem i l ≡ true)
  pub entries :
      (n : String) (l : List ℕ) → Map.find str_dec n t.services_index ≡ some l → IsEntry t n l
  pub single :
      (i j : ℕ)
      → mem i t.services.order ≡ true
      → mem j t.services.order ≡ true
      → name_at t i ≡ name_at t j
      → region_at t i ≡ region_at t j
      → i ≡ j

abbrev pub HasPayloads : List ℕ → TrackerTable → Type 0
HasPayloads live t = Holds str_dec (λ rp. rp.payload.id) (λ rp. Owned live rp.region) t.payloads

pub record IsValid (t : TrackerTable) : Type 0 where
  pub regions : IsCoherent str_dec (λ r. r.id) t.regions
  pub services : HasServices t.regions.list.order t
  pub payloads : HasPayloads t.regions.list.order t
