-- ===== src/Containers/Indexed/Contents.antt =====
-- The list of elements that an `Indexed` table holds, and what each operation does to it: lookups
-- and updates of the plain list by key.
use ris.Base.{
  ℕ, ◌≡◌, refl, sym, ite, List, [], ◌∷◌, ◌++◌, map, Option, none, some, arith, true, ◌≢◌,
  map-append, Option-cases, inl, inr,
}
use ris.Containers.NodeList
use ris.Containers.NodeList.{mem, write, unlink, map-write, mem-unlink}
use ris.Containers.Indexed.{Indexed, find, append, remove, get, set, to_back, contents, IsCoherent}

module _ {K V : Type 0} (dec : Discrete K) (key : V → K) where
  -- The first element with the key.
  unfoldable pub find_by : K → List V → Option V
  find_by k [] = none
  find_by k (v ∷ vs) = ite (dec (key v) k) (some v) (find_by k vs)

  -- The list without the first element with the key.
  unfoldable pub remove_by : K → List V → List V
  remove_by k [] = []
  remove_by k (v ∷ vs) = ite (dec (key v) k) vs (v ∷ remove_by k vs)

  remove_by-map :
      (m : ℕ → V) (i : ℕ) (is : List ℕ)
      → mem i is ≡ true
      → ((j : ℕ) → mem j is ≡ true → key (m j) ≡ key (m i) → j ≡ i)
      → remove_by (key (m i)) (map m is) ≡ map m (unlink i is)
  unfolding remove_by mem unlink
  remove_by-map m i [] h u = cc
  remove_by-map m i (j ∷ is) h u =
      ground (arith, u j, remove_by-map m i is, λ (n : ℕ) (e : mem n is ≡ true). u n (ground arith))

  find_by-map-some :
      (m : ℕ → V) (i : ℕ) (is : List ℕ)
      → mem i is ≡ true
      → ((j : ℕ) → mem j is ≡ true → key (m j) ≡ key (m i) → j ≡ i)
      → find_by (key (m i)) (map m is) ≡ some (m i)
  unfolding find_by mem
  find_by-map-some m i [] h u = cc
  find_by-map-some m i (j ∷ is) h u =
      ground
        (arith, u j, find_by-map-some m i is, λ (n : ℕ) (e : mem n is ≡ true). u n (ground arith))

  pub find_by-map-none :
      (m : ℕ → V) (k : K) (is : List ℕ)
      → ((j : ℕ) → mem j is ≡ true → key (m j) ≢ k)
      → find_by k (map m is) ≡ none
  unfolding find_by mem
  find_by-map-none m k [] u = refl
  find_by-map-none m k (j ∷ is) u =
      ground (arith, u j, find_by-map-none m k is (λ n e. u n (ground arith)))

  module _ (t : Indexed K V) (c : IsCoherent dec key t) where
    pub same_node :
        (i j : ℕ)
        → mem i t.list.order ≡ true
        → mem j t.list.order ≡ true
        → key (get j t) ≡ key (get i t)
        → j ≡ i
    same_node i j hi hj e = ground (arith, c.complete i, c.complete j)

    -- The index finds the element that a search of the list finds.
    pub find_by-contents :
        (k : K)
        → find_by k (contents t) ≡ elim (find dec k t) [ none ↦ none | some i ↦ some (get i t) ]
    find_by-contents k = elim (Option-cases (find dec k t)) [
      | inl e ↦
          rw e (find_by-map-none t.list.cell k t.list.order (λ j h p. ground (arith, c.complete j)))
      | inr (i, e) ↦
          let (h, p) = c.sound k i e in
          rw (e, ← p) (find_by-map-some t.list.cell i t.list.order h (λ j g q. same_node i j h g q))
    ]

    pub contents-remove :
        (k : K) (i : ℕ)
        → find dec k t ≡ some i
        → contents (remove dec k i t) ≡ remove_by k (contents t)
    unfolding remove NodeList.erase
    contents-remove k i e =
        let (h, p) = c.sound k i e in
        rw (← p) (sym (remove_by-map t.list.cell i t.list.order h (λ j g q. same_node i j h g q)))

    pub contents-append : (k : K) (v : V) → contents (append dec k v t) ≡ contents t ++ v ∷ []
    unfolding append NodeList.push_back write
    contents-append k v =
        rw
          (
            map-append,
            map-write t.list.cell t.list.next v t.list.order
                (c.linked.fresh t.list.next (omega arith)),
          )
          (ground arith)

    -- An element that is given a new value with its key, and moved to the back.
    pub contents-touch :
        (k : K) (i : ℕ) (v : V)
        → find dec k t ≡ some i
        → contents (to_back i (set i v t)) ≡ remove_by k (contents t) ++ v ∷ []
    unfolding to_back set NodeList.to_back NodeList.set write
    contents-touch k i v e =
        let (h, p) = c.sound k i e in
        rw
          (
            map-append,
            map-write t.list.cell i v (unlink i t.list.order)
                (ground (arith, mem-unlink i i t.list.order c.linked.distinct)),
            ← p,
            remove_by-map t.list.cell i t.list.order h (λ j g q. same_node i j h g q),
          )
          (ground arith)
