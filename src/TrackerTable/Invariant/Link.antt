-- ===== src/TrackerTable/Invariant/Link.antt =====
-- A new node for a service keeps `HasServices`.
use ris.Base.{
  subst, ℕ, ◌≡◌, ◌≢◌, sym, String, some, List, [], ◌∷◌, ◌++◌, true, false, arith, str_dec,
  ℕ_discrete, ite, ◌||◌, ◌==◌, ap,
}
use ris.RiTypes.Service.{Service}
use ris.Containers.Map
use ris.Containers.NodeList
use ris.Containers.NodeList.{
  mem, Distinct, write_self, write_ne, mem-append, mem_last, mem-unlink, Distinct-last,
  Distinct-unlink, push_back-IsLinked, set-IsLinked, to_back-IsLinked, erase-IsLinked, unlink,
}
use ris.TrackerTable.{TrackerTable}
use ris.TrackerTable.Services
use ris.TrackerTable.Invariant.{Owned, name_at, region_at, IsEntry, HasServices}

module _ (live : List ℕ) (t : TrackerTable) (v : HasServices live t) where
  module _ (regit : ℕ) (svc : Service) (l : List ℕ) (registered : mem regit live ≡ true)
      (apart : Distinct l)
      (nodes : (i : ℕ)
        → mem i l ≡ true
        → (mem i t.services.order ≡ true) × (name_at t i ≡ svc.name))
      (all_nodes : (i : ℕ)
        → mem i t.services.order ≡ true
        → name_at t i ≡ svc.name
        → mem i l ≡ true)
      (new : (i : ℕ) → mem i l ≡ true → region_at t i ≢ some regit) where
    new_node : mem t.services.next t.services.order ≡ false
    new_node = v.linked.fresh t.services.next (omega arith)

    mem_linked :
        (i : ℕ)
        → mem i (t.services.order ++ t.services.next ∷ [])
          ≡ (mem i t.services.order || (t.services.next == i))
    mem_linked i =
        ground
          (arith, mem-append i t.services.order (t.services.next ∷ []), mem_last t.services.next i)

    after : TrackerTable
    after = Services.link_service t regit svc l

    cell_new : after.services.cell t.services.next ≡ record { region = some regit; service = svc }
    unfolding after Services.link_service NodeList.push_back
    cell_new = write_self t.services.cell t.services.next _

    cell_old : (i : ℕ) → t.services.next ≢ i → after.services.cell i ≡ t.services.cell i
    unfolding after Services.link_service NodeList.push_back
    cell_old i q = write_ne t.services.cell t.services.next i _ q

    find_after :
        (n : String)
        → Map.find str_dec n after.services_index
          ≡ ite
              (str_dec svc.name n)
              (some (l ++ t.services.next ∷ []))
              (Map.find str_dec n t.services_index)
    unfolding after Services.link_service
    find_after n = Map.find-assign str_dec svc.name n _ t.services_index

    Owned-after : (i : ℕ) → mem i after.services.order ≡ true → Owned live (region_at after i)
    unfolding after Services.link_service NodeList.push_back
    Owned-after i m = elim (ℕ_discrete t.services.next i) [
      | yes q ↦ (regit, ground (arith, cell_new), registered)
      | no q ↦
          subst (Owned live) (ap (λ c. c.region) (sym (cell_old i q)))
            (v.owned i (ground (arith, mem_linked i)))
    ]

    listed_after :
        (i : ℕ)
        → mem i after.services.order ≡ true
        → (k : List ℕ) × (Map.find str_dec (name_at after i) after.services_index ≡ some k)
          × (mem i k ≡ true)
    unfolding after Services.link_service NodeList.push_back
    listed_after i m = elim (str_dec svc.name (name_at after i)) [
      | yes q ↦ (
        l ++ t.services.next ∷ [],
        ground (arith, find_after (name_at after i)),
        ground (
          arith,
          mem-append i l (t.services.next ∷ []),
          mem_last t.services.next i,
          mem_linked i,
          cell_old i,
          all_nodes i,
        ),
      )
      | no q ↦
          let (k, e, h) = v.listed i (ground (arith, mem_linked i, cell_new)) in
          (k, ground (arith, find_after (name_at after i), cell_old i, cell_new, mem_linked i), h)
    ]

    append_ne : (is : List ℕ) (i : ℕ) → ((is ++ i ∷ []) ≡ []) → ⊥
    append_ne [] i e = cc
    append_ne (j ∷ is) i e = cc

    entry_new : IsEntry after svc.name (l ++ t.services.next ∷ [])
    unfolding after Services.link_service NodeList.push_back
    entry_new = record {
      some_node = append_ne l t.services.next;
      distinct =
          Distinct-last t.services.next l apart (ground (arith, nodes t.services.next, new_node));
      nodes = λ i m. ground (
        arith,
        mem-append i l (t.services.next ∷ []),
        mem_last t.services.next i,
        mem_linked i,
        nodes i,
        cell_old i,
        cell_new,
      );
    }

    entry_old : (n : String) (k : List ℕ) → IsEntry t n k → IsEntry after n k
    unfolding after Services.link_service NodeList.push_back
    entry_old n k w = record {
      some_node = w.some_node;
      distinct = w.distinct;
      nodes = λ i m. ground (arith, mem_linked i, w.nodes i, cell_old i, new_node);
    }

    pub link_service-HasServices : HasServices live (Services.link_service t regit svc l)
    unfolding after Services.link_service NodeList.push_back mem
    link_service-HasServices = record {
      linked = push_back-IsLinked _ t.services v.linked;
      owned = Owned-after;
      listed = listed_after;
      entries = λ n k e. elim (str_dec svc.name n) [
        | yes q ↦
            let p : k ≡ l ++ t.services.next ∷ [] = ground (arith, find_after n) in
            rw (← q, p) entry_new
        | no q ↦ entry_old n k (v.entries n k (ground (arith, find_after n)))
      ];
      single = λ i j hi hj en er. ground (
        arith,
        mem_linked i,
        mem_linked j,
        v.single i j,
        all_nodes i,
        all_nodes j,
        new i,
        new j,
        cell_old i,
        cell_old j,
        cell_new,
      );
    }
