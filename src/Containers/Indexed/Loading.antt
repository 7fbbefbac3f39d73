-- ===== src/Containers/Indexed/Loading.antt =====
-- A table that is filled with the elements of another, one after another.
use ris.Base.{
  ℕ, ◌≡◌, ◌≢◌, refl, sym, ◌∙◌, ap, subst, List, [], ◌∷◌, ◌++◌, map, none, arith, true, false, All,
  map-append, append_assoc, append-nil, if_neg, Option-cases, inl, inr,
}
use ris.Containers.NodeList
use ris.Containers.NodeList.{mem, unlink, Distinct}
use ris.Containers.Indexed
use ris.Containers.Indexed.{Indexed, IsCoherent, empty-IsCoherent, append-IsCoherent}
use ris.Containers.Indexed.Contents.{
  find_by, find_by-map-none, same_node, find_by-contents, contents-append,
}
use ris.Containers.Indexed.Holds.{Holds}

module _ {K V : Type 0} (dec : Discrete K) (key : V → K) where
  -- No two elements have the same key.
  abbrev pub IsUnique : List V → Type 0
  IsUnique [] = Unit
  IsUnique (v ∷ vs) = (find_by dec key (key v) vs ≡ none) × IsUnique vs

  -- The keys of the second list do not occur in the first.
  abbrev pub AllFresh : List V → List V → Type 0
  AllFresh done rest = All (λ v. find_by dec key (key v) done ≡ none) rest

  find_by_snoc :
      (k : K) (w : V) (done : List V)
      → find_by dec key k done ≡ none
      → key w ≢ k
      → find_by dec key k (done ++ w ∷ []) ≡ none
  unfolding find_by
  find_by_snoc k w [] e n = if_neg (dec (key w) k) n _ _
  find_by_snoc k w (v ∷ vs) e n = ground (arith, find_by_snoc k w vs)

  find_by_cons :
      (k : K) (v : V) (vs : List V)
      → find_by dec key k (v ∷ vs) ≡ none
      → (key v ≢ k) × (find_by dec key k vs ≡ none)
  unfolding find_by
  find_by_cons k v vs e = (λ h. ground arith, ground arith)

  AllFresh_snoc :
      (w : V) (done rest : List V)
      → find_by dec key (key w) rest ≡ none
      → AllFresh done rest
      → AllFresh (done ++ w ∷ []) rest
  unfolding find_by
  AllFresh_snoc w done [] e a = tt
  AllFresh_snoc w done (v ∷ rest) e a =
      let (n, f) = find_by_cons (key w) v rest e in
      (find_by_snoc (key v) w done a.0 (λ h. n (sym h)), AllFresh_snoc w done rest f a.1)

  later : (i j : ℕ) (is : List ℕ) → mem i is ≡ false → mem j is ≡ true → j ≢ i
  later i j is a b e = cc

  contents-IsUnique :
      (t : Indexed K V) (is : List ℕ)
      → IsCoherent dec key t
      → ((i : ℕ) → mem i is ≡ true → mem i t.list.order ≡ true)
      → Distinct is
      → IsUnique (map t.list.cell is)
  unfolding mem
  contents-IsUnique t [] c s d = tt
  contents-IsUnique t (i ∷ is) c s d = (
    find_by-map-none dec key t.list.cell (key (t.list.cell i)) is (λ j h e.
        later i j is d.0 h (same_node dec key t c i j (s i (ground arith)) (s j (ground arith)) e)),
    contents-IsUnique t is c (λ j h. s j (ground arith)) d.1,
  )

  contents-All :
      (P : V → Type 0) (t : Indexed K V) (is : List ℕ)
      → ((i : ℕ) → mem i is ≡ true → P (t.list.cell i))
      → All P (map t.list.cell is)
  unfolding mem
  contents-All P t [] h = tt
  contents-All P t (i ∷ is) h =
      (h i (ground arith), contents-All P t is (λ j e. h j (ground arith)))

  absent :
      (t : Indexed K V) (k : K)
      → IsCoherent dec key t
      → find_by dec key k (Indexed.contents t) ≡ none
      → Indexed.find dec k t ≡ none
  absent t k c e = elim (Option-cases (Indexed.find dec k t)) [
    | inl f ↦ f
    | inr (i, f) ↦ ground (arith, find_by-contents dec key t c k)
  ]

  AllFresh_nil : (vs : List V) → AllFresh [] vs
  unfolding find_by
  AllFresh_nil [] = tt
  AllFresh_nil (v ∷ vs) = (refl, AllFresh_nil vs)

  module _ {U : Type 0} (norm : V → U) (P : V → Type 0) where
    -- The first list went into the table, up to what `norm` forgets; the second one is still to come.
    pub record IsLoading (all : List V) (done : Indexed K V) (rest : List V) : Type 0 where
      pub coherent : IsCoherent dec key done
      pub parts : map norm (Indexed.contents done) ++ map norm rest ≡ map norm all
      pub fresh : AllFresh (Indexed.contents done) rest
      pub unique : IsUnique rest
      pub complete : All P rest

    pub start-IsLoading :
        (t : Indexed K V) (v : V)
        → Holds dec key P t
        → IsLoading (Indexed.contents t) (Indexed.empty v) (Indexed.contents t)
    unfolding Indexed.empty NodeList.empty
    start-IsLoading t v h = record {
      coherent = empty-IsCoherent dec key v;
      parts = refl;
      fresh = AllFresh_nil (Indexed.contents t);
      unique = contents-IsUnique t t.list.order h.coherent (λ i e. e) h.coherent.linked.distinct;
      complete = contents-All P t t.list.order h.every;
    }

    -- The next element is not in the table, and can be appended.
    pub next-IsLoading :
        (all : List V) (done : Indexed K V) (v w : V) (rest : List V)
        → IsLoading all done (v ∷ rest)
        → norm w ≡ norm v
        → key w ≡ key v
        → (Indexed.find dec (key w) done ≡ none)
          × IsLoading all (Indexed.append dec (key w) w done) rest
    next-IsLoading all done v w rest l n k =
        let e : Indexed.find dec (key w) done ≡ none =
          absent done (key w) l.coherent
            (subst (λ j. find_by dec key j (Indexed.contents done) ≡ none) (sym k) l.fresh.0) in
        let c = contents-append dec key done l.coherent (key w) w in
        (
          e,
          record {
            coherent = append-IsCoherent dec key w done e l.coherent;
            parts =
                ap (λ vs. map norm vs ++ map norm rest) c
                ∙ ap (λ us. us ++ map norm rest) (map-append norm (Indexed.contents done) (w ∷ []))
                ∙ append_assoc _ (norm w ∷ []) (map norm rest)
                ∙ ap (λ u. map norm (Indexed.contents done) ++ (u ∷ map norm rest)) n
                ∙ l.parts;
            fresh =
                subst (λ vs. AllFresh vs rest) (sym c)
                  (AllFresh_snoc w (Indexed.contents done) rest
                    (subst (λ j. find_by dec key j rest ≡ none) (sym k) l.unique.0) l.fresh.1);
            unique = l.unique.1;
            complete = l.complete.1;
          },
        )

    pub end-IsLoading :
        (all : List V) (done : Indexed K V)
        → IsLoading all done []
        → map norm (Indexed.contents done) ≡ map norm all
    end-IsLoading all done l = sym (append-nil _) ∙ l.parts
