-- ===== src/Containers/Indexed/Holds.antt =====
-- An `Indexed` table that is coherent and whose elements all have a property: kept by each operation.
use ris.Base.{ℕ, ◌≡◌, [], ◌∷◌, some, none, true, arith, if_pos, if_neg, ℕ_discrete}
use ris.Containers.NodeList
use ris.Containers.NodeList.{mem, write, unlink, mem-append, mem-unlink, mem_last}
use ris.Containers.Indexed
use ris.Containers.Indexed.{
  Indexed, get, IsCoherent, set-IsCoherent, to_back-IsCoherent, append-IsCoherent,
  remove-IsCoherent, empty-IsCoherent,
}

module _ {K V : Type 0} (dec : Discrete K) (key : V → K) (P : V → Type 0) where
  -- A table that is coherent, with a property of all its elements.
  pub record Holds (t : Indexed K V) : Type 0 where
    pub coherent : IsCoherent dec key t
    pub every : (i : ℕ) → mem i t.list.order ≡ true → P (get i t)

  pub Holds-empty : (v : V) → Holds (Indexed.empty v)
  unfolding Indexed.empty NodeList.empty mem
  Holds-empty v = record { coherent = empty-IsCoherent dec key v; every = λ i h. cc }

  pub Holds-append :
      (v : V) (t : Indexed K V)
      → Indexed.find dec (key v) t ≡ none
      → P v
      → Holds t
      → Holds (Indexed.append dec (key v) v t)
  unfolding Indexed.append NodeList.push_back write
  Holds-append v t e p h = record {
    coherent = append-IsCoherent dec key v t e h.coherent;
    every = λ i m. elim (ℕ_discrete t.list.next i) [
      | yes q ↦ subst_P i q
      | no q ↦ rw (if_neg _ q) (
          h.every i
            (ground (arith, mem-append i t.list.order (t.list.next ∷ []), mem_last t.list.next i)))
    ];
  }
    where
      subst_P : (i : ℕ) → t.list.next ≡ i → P (write t.list.cell t.list.next v i)
      subst_P i q = rw (if_pos _ q) p

  pub Holds-remove :
      (k : K) (i : ℕ) (t : Indexed K V)
      → Indexed.find dec k t ≡ some i
      → Holds t
      → Holds (Indexed.remove dec k i t)
  unfolding Indexed.remove NodeList.erase
  Holds-remove k i t e h = record {
    coherent = remove-IsCoherent dec key k i t e h.coherent;
    every =
        λ j m. h.every j (ground (arith, mem-unlink i j t.list.order h.coherent.linked.distinct));
  }

  -- An element is given a new value with its key, and moved to the back.
  pub Holds-touch :
      (i : ℕ) (v : V) (t : Indexed K V)
      → mem i t.list.order ≡ true
      → key v ≡ key (get i t)
      → P v
      → Holds t
      → Holds (Indexed.to_back i (Indexed.set i v t))
  unfolding Indexed.to_back Indexed.set NodeList.to_back NodeList.set write
  Holds-touch i v t m e p h = record {
    coherent =
        to_back-IsCoherent dec key i (Indexed.set i v t) m
          (set-IsCoherent dec key i v t e h.coherent);
    every = λ j n. elim (ℕ_discrete i j) [
      | yes q ↦ rw (if_pos _ q) p
      | no q ↦ rw (if_neg _ q) (
          h.every j (
            ground (
              arith,
              mem-append j (unlink i t.list.order) (i ∷ []),
              mem-unlink i j t.list.order h.coherent.linked.distinct,
              mem_last i j,
            )))
    ];
  }

pub Holds-map :
    {K V : Type 0} (dec : Discrete K) (key : V → K) (P Q : V → Type 0) (t : Indexed K V)
    → ((v : V) → P v → Q v)
    → Holds dec key P t
    → Holds dec key Q t
Holds-map dec key P Q t f h = record { coherent = h.coherent; every = λ i m. f _ (h.every i m) }
