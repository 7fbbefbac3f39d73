-- ===== src/Containers/NodeList.antt =====
-- `std::list` with iterators that stay valid: a node is known by its address, a number that is
-- never given out twice; `order` lists the addresses from front to back, `cell` is the memory.
-- The library code splices within one list only.
use ris.Base.{
  ℕ, suc, ◌≤◌, ◌≡◌, ◌≢◌, refl, ite, List, [], ◌∷◌, ◌++◌, map, arith, Bool, true, false, ◌&&◌, ◌||◌,
  not, ◌==◌, ℕ_discrete, if◌then◌else◌,
}

pub record NodeList {ℓ} (V : Type ℓ) : Type ℓ where
  pub order : List ℕ
  pub cell : ℕ → V
  pub next : ℕ

-- Is there a node at this address in the list?
unfoldable pub mem : ℕ → List ℕ → Bool
mem i [] = false
mem i (j ∷ js) = (j == i) || mem i js

-- The addresses with one of them unlinked.
unfoldable pub unlink : ℕ → List ℕ → List ℕ
unlink i [] = []
unlink i (j ∷ js) = if j == i then js else j ∷ unlink i js

-- No address twice.
abbrev pub Distinct : List ℕ → Type 0
Distinct [] = Unit {0}
Distinct (i ∷ is) = (mem i is ≡ false) × Distinct is

pub mem-append : (i : ℕ) (is js : List ℕ) → mem i (is ++ js) ≡ (mem i is || mem i js)
unfolding mem
mem-append i [] js = refl
mem-append i (k ∷ is) js = ground (arith, mem-append i is js)

pub mem-unlink :
    (i j : ℕ) (is : List ℕ) → Distinct is → mem j (unlink i is) ≡ (mem j is && not (i == j))
unfolding mem unlink
mem-unlink i j [] d = refl
mem-unlink i j (k ∷ is) d = ground (arith, mem-unlink i j is d.1)

pub mem_last : (i j : ℕ) → mem j (i ∷ []) ≡ (i == j)
unfolding mem
mem_last i j = ground arith

pub Distinct-unlink : (i : ℕ) (is : List ℕ) → Distinct is → Distinct (unlink i is)
unfolding unlink
Distinct-unlink i [] d = tt
Distinct-unlink i (k ∷ is) d = ground (arith, Distinct-unlink i is d.1, mem-unlink i k is d.1)

pub Distinct-last : (i : ℕ) (is : List ℕ) → Distinct is → mem i is ≡ false → Distinct (is ++ i ∷ [])
unfolding mem
Distinct-last i [] d h = (refl, tt)
Distinct-last i (k ∷ is) d h = ground (arith, Distinct-last i is d.1, mem-append k is (i ∷ []))

module _ {ℓ} {V : Type ℓ} where
  -- An empty list over memory that holds a default value everywhere.
  unfoldable pub empty : V → NodeList V
  empty v = record { order = []; cell = λ _. v; next = 0 }

  unfoldable pub write : (ℕ → V) → ℕ → V → ℕ → V
  write m i v j = ite (ℕ_discrete i j) v (m j)

  pub write_self : (m : ℕ → V) (i : ℕ) (v : V) → write m i v i ≡ v
  unfolding write
  write_self m i v = ground arith

  pub write_ne : (m : ℕ → V) (i j : ℕ) (v : V) → i ≢ j → write m i v j ≡ m j
  unfolding write
  write_ne m i j v h = ground arith

  -- `l.insert(l.end(), v)`; the iterator that it returns is `l.next`.
  unfoldable pub push_back : V → NodeList V → NodeList V
  push_back v l = record {
    order = l.order ++ l.next ∷ [];
    cell = write l.cell l.next v;
    next = suc l.next;
  }

  -- `l.erase(it)`
  unfoldable pub erase : ℕ → NodeList V → NodeList V
  erase i l = record l { order = unlink i l.order }

  -- `*it = v`
  unfoldable pub set : ℕ → V → NodeList V → NodeList V
  set i v l = record l { cell = write l.cell i v }

  -- `l.splice(l.end(), l, it)`
  unfoldable pub to_back : ℕ → NodeList V → NodeList V
  to_back i l = record l { order = unlink i l.order ++ i ∷ [] }

  -- The elements from front to back.
  abbrev pub values : NodeList V → List V
  values l = map l.cell l.order

  pub map-write :
      (m : ℕ → V) (i : ℕ) (v : V) (is : List ℕ) → mem i is ≡ false → map (write m i v) is ≡ map m is
  unfolding mem write
  map-write m i v [] h = refl
  map-write m i v (j ∷ is) h = ground (arith, map-write m i v is)

-- The addresses in the list are distinct, and were given out.
pub record IsLinked {ℓ} {V : Type ℓ} (l : NodeList V) : Type 0 where
  pub distinct : Distinct l.order
  pub fresh : (i : ℕ) → l.next ≤ i → mem i l.order ≡ false

module _ {ℓ} {V : Type ℓ} where
  pub empty-IsLinked : (v : V) → IsLinked (empty v)
  unfolding empty mem
  empty-IsLinked v = record { distinct = tt; fresh = λ i h. refl }

  pub push_back-IsLinked : (v : V) (l : NodeList V) → IsLinked l → IsLinked (push_back v l)
  unfolding push_back
  push_back-IsLinked v l w = record {
    distinct = Distinct-last l.next l.order w.distinct (w.fresh l.next (omega arith));
    fresh = λ i h. ground (arith, mem-append i l.order (l.next ∷ []), mem_last l.next i, w.fresh i);
  }

  pub erase-IsLinked : (i : ℕ) (l : NodeList V) → IsLinked l → IsLinked (erase i l)
  unfolding erase
  erase-IsLinked i l w = record {
    distinct = Distinct-unlink i l.order w.distinct;
    fresh = λ j h. ground (arith, mem-unlink i j l.order w.distinct, w.fresh j);
  }

  pub set-IsLinked : (i : ℕ) (v : V) (l : NodeList V) → IsLinked l → IsLinked (set i v l)
  unfolding set
  set-IsLinked i v l w = record { distinct = w.distinct; fresh = w.fresh }

  pub to_back-IsLinked :
      (i : ℕ) (l : NodeList V) → mem i l.order ≡ true → IsLinked l → IsLinked (to_back i l)
  unfolding to_back
  to_back-IsLinked i l h w = record {
    distinct =
        Distinct-last i (unlink i l.order) (Distinct-unlink i l.order w.distinct)
          (ground (arith, mem-unlink i i l.order w.distinct));
    fresh = λ j g. ground (
      arith,
      mem-append j (unlink i l.order) (i ∷ []),
      mem-unlink i j l.order w.distinct,
      mem_last i j,
      w.fresh j,
    );
  }
