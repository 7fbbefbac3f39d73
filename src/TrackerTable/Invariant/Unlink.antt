-- ===== src/TrackerTable/Invariant/Unlink.antt =====
-- `HasServices` passes to a table that reads alike, and is kept where a node is unlinked.
use ris.Base.{
  ℕ, ◌≡◌, ◌≢◌, sym, ◌∙◌, String, some, none, List, [], ◌∷◌, true, arith, str_dec, ◌&&◌, not, ◌==◌,
  subst,
}
use ris.Containers.Map
use ris.Containers.NodeList
use ris.Containers.NodeList.{
  mem, Distinct, IsLinked, mem-unlink, Distinct-unlink, erase-IsLinked, unlink,
}
use ris.TrackerTable.{TrackerTable}
use ris.TrackerTable.Services
use ris.TrackerTable.Services.{reindex}
use ris.TrackerTable.Invariant.{name_at, region_at, IsEntry, HasServices}

-- Two tables with the same nodes, names, owners and index entries.
pub record ReadsAlike (t u : TrackerTable) : Type 0 where
  pub nodes : (i : ℕ) → mem i u.services.order ≡ mem i t.services.order
  pub names : (i : ℕ) → name_at u i ≡ name_at t i
  pub owners : (i : ℕ) → region_at u i ≡ region_at t i
  pub index :
      (n : String) → Map.find str_dec n u.services_index ≡ Map.find str_dec n t.services_index

pub HasServices_alike :
    (live more : List ℕ) (t u : TrackerTable)
    → ReadsAlike t u
    → IsLinked u.services
    → ((p : ℕ) → mem p live ≡ true → mem p more ≡ true)
    → HasServices live t
    → HasServices more u
HasServices_alike live more t u a w sub v = record {
  linked = w;
  owned = λ i m. let (p, e, h) = v.owned i (sym (a.nodes i) ∙ m) in (p, a.owners i ∙ e, sub p h);
  listed = λ i m.
      let (l, e, h) = v.listed i (sym (a.nodes i) ∙ m) in
      (l, ground (arith, a.index (name_at u i), a.names i), h);
  entries = λ n l e.
      let y = v.entries n l (sym (a.index n) ∙ e) in
      record {
        some_node = y.some_node;
        distinct = y.distinct;
        nodes = λ i m. ground (arith, y.nodes i m, a.nodes i, a.names i);
      };
  single = λ i j hi hj en er.
      v.single i j (sym (a.nodes i) ∙ hi) (sym (a.nodes j) ∙ hj)
        (ground (arith, a.names i, a.names j)) (ground (arith, a.owners i, a.owners j));
}

find-reindex_ne :
    (svc n : String) (l : List ℕ) (index : List (String × List ℕ))
    → svc ≢ n
    → Map.find str_dec n (reindex svc l index) ≡ Map.find str_dec n index
unfolding reindex
find-reindex_ne svc n [] index h = ground (arith, Map.find-erase str_dec svc n index)
find-reindex_ne svc n (i ∷ l) index h = ground (arith, Map.find-assign str_dec svc n (i ∷ l) index)

find-reindex_nil :
    (svc : String) (index : List (String × List ℕ))
    → Map.find str_dec svc (reindex svc [] index) ≡ none
unfolding reindex
find-reindex_nil svc index = ground (arith, Map.find-erase str_dec svc svc index)

find-reindex_cons :
    (svc : String) (i : ℕ) (l : List ℕ) (index : List (String × List ℕ))
    → Map.find str_dec svc (reindex svc (i ∷ l) index) ≡ some (i ∷ l)
unfolding reindex
find-reindex_cons svc i l index = ground (arith, Map.find-assign str_dec svc svc (i ∷ l) index)

-- The entry of the name after the removal, if it keeps a node.
find-reindex-mem :
    (svc : String) (j : ℕ) (l : List ℕ) (index : List (String × List ℕ))
    → mem j l ≡ true
    → Map.find str_dec svc (reindex svc l index) ≡ some l
unfolding mem
find-reindex-mem svc j [] index h = cc
find-reindex-mem svc j (i ∷ l) index h = find-reindex_cons svc i l index

find-reindex_inv :
    (svc : String) (l k : List ℕ) (index : List (String × List ℕ))
    → Map.find str_dec svc (reindex svc l index) ≡ some k
    → (l ≡ k) × ((k ≡ []) → ⊥)
find-reindex_inv svc [] k index e = ground (arith, find-reindex_nil svc index)
find-reindex_inv svc (i ∷ l) k index e = ground (arith, find-reindex_cons svc i l index)

module _ (live : List ℕ) (t : TrackerTable) (v : HasServices live t) (svc : String) (l : List ℕ)
    (it : ℕ) (found : Map.find str_dec svc t.services_index ≡ some l)
    (there : mem it l ≡ true) where
  entry : IsEntry t svc l
  entry = v.entries svc l found

  mem_rest :
      (j : ℕ) → mem j (unlink it t.services.order) ≡ (mem j t.services.order && not (it == j))
  mem_rest j = mem-unlink it j t.services.order v.linked.distinct

  mem_left : (j : ℕ) → mem j (unlink it l) ≡ (mem j l && not (it == j))
  mem_left j = mem-unlink it j l entry.distinct

  abbrev rest_index : List (String × List ℕ)
  rest_index = reindex svc (unlink it l) t.services_index

  listed_rest :
      (j : ℕ)
      → mem j (unlink it t.services.order) ≡ true
      → (k : List ℕ) × (Map.find str_dec (name_at t j) rest_index ≡ some k) × (mem j k ≡ true)
  listed_rest j m =
      let (k, e, h) = v.listed j (ground (arith, mem_rest j)) in
      elim (str_dec svc (name_at t j)) [
        | yes q ↦ (
          unlink it l,
          rw (← q) (
              find-reindex-mem svc j (unlink it l) t.services_index
                (ground (arith, mem_left j, mem_rest j))),
          ground (arith, mem_left j, mem_rest j),
        )
        | no q ↦ (k, find-reindex_ne svc (name_at t j) (unlink it l) t.services_index q ∙ e, h)
      ]

  entry_other :
      (n : String) (k : List ℕ)
      → svc ≢ n
      → IsEntry t n k
      → IsEntry (Services.unlink_service t svc l it) n k
  unfolding Services.unlink_service NodeList.erase
  entry_other n k q w = record {
    some_node = w.some_node;
    distinct = w.distinct;
    nodes = λ i m. ground (arith, w.nodes i m, mem_rest i, entry.nodes it there);
  }

  entry_same :
      ((unlink it l ≡ []) → ⊥) → IsEntry (Services.unlink_service t svc l it) svc (unlink it l)
  unfolding Services.unlink_service NodeList.erase
  entry_same h = record {
    some_node = h;
    distinct = Distinct-unlink it l entry.distinct;
    nodes = λ i m. ground (arith, entry.nodes i, mem_rest i, mem_left i);
  }

  entry_rest :
      (n : String) (k : List ℕ)
      → Map.find str_dec n rest_index ≡ some k
      → IsEntry (Services.unlink_service t svc l it) n k
  entry_rest n k e = elim (str_dec svc n) [
    | yes q ↦
        let (p, h) =
          find-reindex_inv svc (unlink it l) k t.services_index
            (subst (λ m. Map.find str_dec m rest_index ≡ some k) (sym q) e) in
        subst (λ m. IsEntry (Services.unlink_service t svc l it) m k) q
          (subst (IsEntry (Services.unlink_service t svc l it) svc) p
            (entry_same (λ z. h (sym p ∙ z))))
    | no q ↦
        entry_other n k q
          (v.entries n k (sym (find-reindex_ne svc n (unlink it l) t.services_index q) ∙ e))
  ]

  pub unlink_service-HasServices : HasServices live (Services.unlink_service t svc l it)
  unfolding Services.unlink_service NodeList.erase
  unlink_service-HasServices = record {
    linked = erase-IsLinked it t.services v.linked;
    owned = λ j m. v.owned j (ground (arith, mem_rest j));
    listed = listed_rest;
    entries = entry_rest;
    single = λ i j hi hj en er.
        v.single i j (ground (arith, mem_rest i)) (ground (arith, mem_rest j)) en er;
  }
