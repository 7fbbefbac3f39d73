-- ===== src/Containers/Indexed.antt =====
-- A `std::list` beside a `std::unordered_map` from keys to iterators into it, the layout of the
-- tables of regions, services and payloads and of the bus worker queue.
pub mod Contents
pub mod Holds
pub mod Loading
use ris.Base.{ℕ, ◌≡◌, List, [], ◌∷◌, Option, none, some, arith, true}
use ris.Containers.Map
use ris.Containers.NodeList
use ris.Containers.NodeList.{
  NodeList, IsLinked, mem, write, values, empty-IsLinked, push_back-IsLinked, erase-IsLinked,
  set-IsLinked, to_back-IsLinked, mem-append, mem_last, mem-unlink,
}

pub record Indexed (K V : Type 0) : Type 0 where
  pub list : NodeList V
  pub index : List (K × ℕ)

unfoldable pub empty : {K V : Type 0} → V → Indexed K V
empty v = record { list = NodeList.empty v; index = [] }

module _ {K V : Type 0} (dec : Discrete K) where
  -- `index.find(k)`: the iterator, if the key is there.
  unfoldable pub find : K → Indexed K V → Option ℕ
  find k t = Map.find dec k t.index

  -- `it = list.insert(list.end(), v); index.insert({k, it})`
  unfoldable pub append : K → V → Indexed K V → Indexed K V
  append k v t = record {
    list = NodeList.push_back v t.list;
    index = Map.insert dec k t.list.next t.index;
  }

  -- `index.erase(k); list.erase(it)`
  unfoldable pub remove : K → ℕ → Indexed K V → Indexed K V
  remove k i t = record { list = NodeList.erase i t.list; index = Map.erase dec k t.index }

-- `*it`
abbrev pub get : {K V : Type 0} → ℕ → Indexed K V → V
get i t = t.list.cell i

-- `*it = v`
unfoldable pub set : {K V : Type 0} → ℕ → V → Indexed K V → Indexed K V
set i v t = record t { list = NodeList.set i v t.list }

-- `list.splice(list.end(), list, it)`
unfoldable pub to_back : {K V : Type 0} → ℕ → Indexed K V → Indexed K V
to_back i t = record t { list = NodeList.to_back i t.list }

-- The elements from front to back.
abbrev pub contents : {K V : Type 0} → Indexed K V → List V
contents t = values t.list

-- The index has an entry for each node of the list, under the key of its element, and no other.
pub record IsCoherent {K V : Type 0} (dec : Discrete K) (key : V → K) (t : Indexed K V)
    : Type 0 where
  pub linked : IsLinked t.list
  pub sound :
      (k : K) (i : ℕ) → find dec k t ≡ some i → (mem i t.list.order ≡ true) × (key (get i t) ≡ k)
  pub complete : (i : ℕ) → mem i t.list.order ≡ true → find dec (key (get i t)) t ≡ some i

module _ {K V : Type 0} (dec : Discrete K) (key : V → K) where
  pub empty-IsCoherent : (v : V) → IsCoherent dec key (empty v)
  unfolding empty find Map.find NodeList.empty mem
  empty-IsCoherent v = record {
    linked = empty-IsLinked v;
    sound = λ k i h. ground arith;
    complete = λ i h. cc;
  }

  pub append-IsCoherent :
      (v : V) (t : Indexed K V)
      → find dec (key v) t ≡ none
      → IsCoherent dec key t
      → IsCoherent dec key (append dec (key v) v t)
  unfolding find append NodeList.push_back write
  append-IsCoherent v t h c = record {
    linked = push_back-IsLinked v t.list c.linked;
    sound = λ k i e. ground (
      arith,
      Map.find-insert dec (key v) k t.list.next t.index h,
      mem-append i t.list.order (t.list.next ∷ []),
      mem_last t.list.next i,
      c.sound k i,
      c.linked.fresh i,
    );
    complete = λ i e. ground (
      arith,
      Map.find-insert dec (key v) (key v) t.list.next t.index h,
      Map.find-insert dec (key v) (key (t.list.cell i)) t.list.next t.index h,
      mem-append i t.list.order (t.list.next ∷ []),
      mem_last t.list.next i,
      c.complete i,
      c.linked.fresh i,
    );
  }

  pub remove-IsCoherent :
      (k : K) (i : ℕ) (t : Indexed K V)
      → find dec k t ≡ some i
      → IsCoherent dec key t
      → IsCoherent dec key (remove dec k i t)
  unfolding find remove NodeList.erase
  remove-IsCoherent k i t h c = record {
    linked = erase-IsLinked i t.list c.linked;
    sound = λ j n e. ground (
      arith,
      Map.find-erase dec k j t.index,
      mem-unlink i n t.list.order c.linked.distinct,
      c.sound j n,
      c.sound k i h,
    );
    complete = λ n e. ground (
      arith,
      Map.find-erase dec k (key (t.list.cell n)) t.index,
      mem-unlink i n t.list.order c.linked.distinct,
      c.complete n,
      c.sound k i h,
    );
  }

  pub set-IsCoherent :
      (i : ℕ) (v : V) (t : Indexed K V)
      → key v ≡ key (get i t)
      → IsCoherent dec key t
      → IsCoherent dec key (set i v t)
  unfolding find set NodeList.set write
  set-IsCoherent i v t h c = record {
    linked = set-IsLinked i v t.list c.linked;
    sound = λ k n e. ground (arith, c.sound k n);
    complete = λ n e. ground (arith, c.complete n);
  }

  pub to_back-IsCoherent :
      (i : ℕ) (t : Indexed K V)
      → mem i t.list.order ≡ true
      → IsCoherent dec key t
      → IsCoherent dec key (to_back i t)
  unfolding find to_back NodeList.to_back
  to_back-IsCoherent i t h c = record {
    linked = to_back-IsLinked i t.list h c.linked;
    sound = λ k n e. ground (
      arith,
      mem-append n (NodeList.unlink i t.list.order) (i ∷ []),
      mem-unlink i n t.list.order c.linked.distinct,
      mem_last i n,
      c.sound k n,
    );
    complete = λ n e. ground (
      arith,
      mem-append n (NodeList.unlink i t.list.order) (i ∷ []),
      mem-unlink i n t.list.order c.linked.distinct,
      mem_last i n,
      c.complete n,
    );
  }
