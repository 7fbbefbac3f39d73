-- ===== src/RegionProduct/Catalogue.antt =====
-- What a `RegionProduct` promises, with plain lists: include/tracker/regionproduct.h. The most
-- recent entry of a list is its last.
use ris.Base.{
  ℕ, ◌≡◌, refl, sym, ◌∙◌, ap, String, some, none, List, [], ◌∷◌, ◌++◌, ite, str_dec, arith,
  Option-cases, inl, inr,
}
use ris.Observer.{
  Event, on_region, on_rm_region, on_service, on_rm_service, on_payload, on_rm_payload,
}
use ris.Containers.NodeList
use ris.Containers.Indexed
use ris.Containers.Indexed.{
  Indexed, IsCoherent, empty-IsCoherent, append-IsCoherent, remove-IsCoherent, set-IsCoherent,
  to_back-IsCoherent,
}
use ris.Containers.Indexed.Contents.{
  find_by, remove_by, find_by-contents, contents-append, contents-touch,
}
use ris.RiTypes.Region.{Region}
use ris.RiTypes.Service.{Service}
use ris.RiTypes.Payload.{Payload}
use ris.RegionProduct
use ris.RegionProduct.{RegionProduct}

pub record Catalogue : Type 0 where
  pub region : Region
  pub services : List Service
  pub payloads : List Payload

abbrev pub service_key : Service → String
service_key svc = svc.name

abbrev pub payload_key : Payload → String
payload_key pl = pl.id

-- The new entry is the most recent one, and the only one of its key.
unfoldable pub renew : {V : Type 0} → (V → String) → V → List V → List V
renew key v vs = remove_by str_dec key (key v) vs ++ v ∷ []

abbrev pub versioned : Region → ℕ → Region
versioned r version = record r { version = version }

-- What a catalogue becomes when it hears a call.
unfoldable pub heard : Catalogue → Event → Catalogue
unfolding renew
heard c (on_region reg) = ite (str_dec reg.id c.region.id) (record c { region = reg }) c
heard c (on_rm_region reg) =
    ite (str_dec c.region.id reg)
      (record { region = record c.region { id = "" }; services = []; payloads = [] }) c
heard c (on_service reg version svc) =
    ite (str_dec c.region.id reg)
      (record c {
        region = versioned c.region version;
        services = renew service_key svc c.services;
      })
      c
heard c (on_rm_service reg version svc) =
    ite (str_dec c.region.id reg)
      (record c {
        region = versioned c.region version;
        services = remove_by str_dec service_key svc c.services;
      })
      c
heard c (on_payload reg version pl) =
    ite (str_dec c.region.id reg)
      (record c { region = versioned c.region version; payloads = renew payload_key pl c.payloads })
      c
heard c (on_rm_payload reg version pl) =
    ite (str_dec c.region.id reg)
      (record c {
        region = versioned c.region version;
        payloads = remove_by str_dec payload_key pl c.payloads;
      })
      c

abbrev pub view : RegionProduct → Catalogue
view p = record {
  region = p.region;
  services = Indexed.contents p.services;
  payloads = Indexed.contents p.payloads;
}

pub record IsValid (p : RegionProduct) : Type 0 where
  pub services : IsCoherent str_dec service_key p.services
  pub payloads : IsCoherent str_dec payload_key p.payloads

remove_by_missing :
    {V : Type 0} (key : V → String) (k : String) (vs : List V)
    → find_by str_dec key k vs ≡ none
    → remove_by str_dec key k vs ≡ vs
unfolding find_by remove_by
remove_by_missing key k [] e = refl
remove_by_missing key k (v ∷ vs) e = elim (str_dec (key v) k) [
  | yes h ↦ ground arith
  | no h ↦ ground (arith, remove_by_missing key k vs)
]

module _ {V : Type 0} (key : V → String) (t : Indexed String V) (c : IsCoherent str_dec key t) where
  -- An absent key is not removed from the list.
  pub missing :
      (k : String)
      → Indexed.find str_dec k t ≡ none
      → remove_by str_dec key k (Indexed.contents t) ≡ Indexed.contents t
  missing k e =
      remove_by_missing key k (Indexed.contents t) (find_by-contents str_dec key t c k ∙ rw e refl)

  pub contents_new :
      (v : V)
      → Indexed.find str_dec (key v) t ≡ none
      → Indexed.contents (Indexed.append str_dec (key v) v t) ≡ renew key v (Indexed.contents t)
  unfolding renew
  contents_new v e =
      contents-append str_dec key t c (key v) v ∙ ap (λ l. l ++ v ∷ []) (sym (missing (key v) e))

  pub contents_old :
      (v : V) (i : ℕ)
      → Indexed.find str_dec (key v) t ≡ some i
      → Indexed.contents (Indexed.to_back i (Indexed.set i v t)) ≡ renew key v (Indexed.contents t)
  unfolding renew
  contents_old v i e = contents-touch str_dec key t c (key v) i v e

  touch-IsCoherent :
      (v : V) (i : ℕ)
      → Indexed.find str_dec (key v) t ≡ some i
      → IsCoherent str_dec key (Indexed.to_back i (Indexed.set i v t))
  unfolding Indexed.set NodeList.set
  touch-IsCoherent v i e =
      let (m, k) = c.sound (key v) i e in
      to_back-IsCoherent str_dec key i _ m (set-IsCoherent str_dec key i v t (sym k) c)

pub put_service_lem :
    (t : Indexed String Service) (svc : Service)
    → IsCoherent str_dec service_key t
    → IsCoherent str_dec service_key (RegionProduct.put_service t svc)
      × (Indexed.contents (RegionProduct.put_service t svc)
          ≡ renew service_key svc (Indexed.contents t))
unfolding RegionProduct.put_service
put_service_lem t svc c = elim (Option-cases (Indexed.find str_dec svc.name t)) [
  | inl e ↦
      rw (e, RegionProduct.put_service)
        (append-IsCoherent str_dec service_key svc t e c, contents_new service_key t c svc e)
  | inr (i, e) ↦
      rw (e, RegionProduct.put_service)
        (touch-IsCoherent service_key t c svc i e, contents_old service_key t c svc i e)
]

pub put_payload_lem :
    (t : Indexed String Payload) (pl : Payload)
    → IsCoherent str_dec payload_key t
    → IsCoherent str_dec payload_key (RegionProduct.put_payload t pl)
      × (Indexed.contents (RegionProduct.put_payload t pl)
          ≡ renew payload_key pl (Indexed.contents t))
unfolding RegionProduct.put_payload
put_payload_lem t pl c = elim (Option-cases (Indexed.find str_dec pl.id t)) [
  | inl e ↦
      rw (e, RegionProduct.put_payload)
        (append-IsCoherent str_dec payload_key pl t e c, contents_new payload_key t c pl e)
  | inr (i, e) ↦
      rw (e, RegionProduct.put_payload)
        (touch-IsCoherent payload_key t c pl i e, contents_old payload_key t c pl i e)
]
