-- ===== src/RegionProduct.antt =====
-- `RegionProduct`: include/tracker/regionproduct.h and src/tracker/regionproduct.cxx. What a
-- tracker builds of one region from its snapshot, and then from the updates that it publishes.
pub mod Catalogue
pub mod Refinement
use ris.Base.{ℕ, String, ite, Option, none, some, ◌||◌, if◌then◌else◌, is_empty, str_dec}
use ris.Observer.{
  Event, on_region, on_rm_region, on_service, on_rm_service, on_payload, on_rm_payload, Status, ok,
  failed,
}
use ris.RiTypes.Region
use ris.RiTypes.Region.{Region}
use ris.RiTypes.Service
use ris.RiTypes.Service.{Service}
use ris.RiTypes.Payload
use ris.RiTypes.Payload.{Payload}
use ris.Containers.Indexed
use ris.Containers.Indexed.{Indexed}

pub record RegionProduct : Type 0 where
  pub region : Region
  pub services : Indexed String Service
  pub payloads : Indexed String Payload

unfoldable pub create : RegionProduct
create = record {
  region = Region.default;
  services = Indexed.empty Service.default;
  payloads = Indexed.empty Payload.default;
}

-- From `ISnapshotBuilder`.
unfoldable pub add_region : RegionProduct → Region → RegionProduct × Status
add_region p region =
    if is_empty p.region.id
    then (record p { region = region }, ok)
    else ite (str_dec p.region.id region.id) (record p { region = region }, ok) (p, failed)

unfoldable pub add_service : RegionProduct → String → Service → RegionProduct × Status
add_service p region svc =
    ite (str_dec p.region.id region)
      (elim (Indexed.find str_dec svc.name p.services) [
        | none ↦ (record p { services = Indexed.append str_dec svc.name svc p.services }, ok)
        | some it ↦ (p, failed)
      ])
      (p, failed)

unfoldable pub add_payload : RegionProduct → String → Payload → RegionProduct × Status
add_payload p region pl =
    ite (str_dec p.region.id region)
      (elim (Indexed.find str_dec pl.id p.payloads) [
        | none ↦ (record p { payloads = Indexed.append str_dec pl.id pl p.payloads }, ok)
        | some it ↦ (p, failed)
      ])
      (p, failed)

-- From `IRIObserver`.
unfoldable pub handle_region : RegionProduct → Region → RegionProduct
handle_region p region = ite (str_dec region.id p.region.id) (record p { region = region }) p

-- The lists forget their nodes; a new list starts.
unfoldable pub handle_rm_region : RegionProduct → String → RegionProduct
handle_rm_region p region =
    ite (str_dec p.region.id region)
      (record {
        region = record p.region { id = "" };
        services = Indexed.empty Service.default;
        payloads = Indexed.empty Payload.default;
      })
      p

-- `m_region.version = version`
unfoldable pub set_version : RegionProduct → ℕ → RegionProduct
set_version p version = record p { region = record p.region { version = version } }

unfoldable pub put_service : Indexed String Service → Service → Indexed String Service
put_service t svc = elim (Indexed.find str_dec svc.name t) [
  | none ↦ Indexed.append str_dec svc.name svc t
  | some it ↦ Indexed.to_back it (Indexed.set it svc t)
]

unfoldable pub put_payload : Indexed String Payload → Payload → Indexed String Payload
put_payload t pl = elim (Indexed.find str_dec pl.id t) [
  | none ↦ Indexed.append str_dec pl.id pl t
  | some it ↦ Indexed.to_back it (Indexed.set it pl t)
]

unfoldable pub handle_service : RegionProduct → String → ℕ → Service → RegionProduct
unfolding set_version put_service
handle_service p region version svc =
    ite (str_dec p.region.id region)
      (record (set_version p version) { services = put_service p.services svc }) p

unfoldable pub handle_rm_service : RegionProduct → String → ℕ → String → RegionProduct
unfolding set_version
handle_rm_service p region version svc =
    ite (str_dec p.region.id region)
      (elim (Indexed.find str_dec svc p.services) [
        | none ↦ set_version p version
        | some it ↦ record (set_version p version) {
          services = Indexed.remove str_dec svc it p.services;
        }
      ])
      p

unfoldable pub handle_payload : RegionProduct → String → ℕ → Payload → RegionProduct
unfolding set_version put_payload
handle_payload p region version pl =
    ite (str_dec p.region.id region)
      (record (set_version p version) { payloads = put_payload p.payloads pl }) p

unfoldable pub handle_rm_payload : RegionProduct → String → ℕ → String → RegionProduct
unfolding set_version
handle_rm_payload p region version pl =
    ite (str_dec p.region.id region)
      (elim (Indexed.find str_dec pl p.payloads) [
        | none ↦ set_version p version
        | some it ↦ record (set_version p version) {
          payloads = Indexed.remove str_dec pl it p.payloads;
        }
      ])
      p

-- The virtual dispatch of a call of the observer.
unfoldable pub handle : RegionProduct → Event → RegionProduct
handle p (on_region reg) = handle_region p reg
handle p (on_rm_region reg) = handle_rm_region p reg
handle p (on_service reg version svc) = handle_service p reg version svc
handle p (on_rm_service reg version svc) = handle_rm_service p reg version svc
handle p (on_payload reg version pl) = handle_payload p reg version pl
handle p (on_rm_payload reg version pl) = handle_rm_payload p reg version pl
