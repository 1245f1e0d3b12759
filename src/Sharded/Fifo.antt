-- ===== src/Sharded/Fifo.antt =====
-- src/sharded/eviction/fifo.rs: the index-based FIFO policy. A function that may panic returns
-- `none` when it does. Every method holds the lock throughout, so it is one function on the state.
pub mod Back
pub mod Room
pub mod Push
pub mod Methods
use test_thread_safe_lru_cac.Base.{
  ℕ, Bool, Option, none, some, List, [], ◌∷◌, ◌++◌, ◌==◌, leb, if◌then◌else◌, length, get_elem?,
  set, ◌>>=◌,
}
use test_thread_safe_lru_cac.Assoc
use test_thread_safe_lru_cac.Store.{Node}
use test_thread_safe_lru_cac.Sharded.Slots.{LruInner, slot}

abbrev pub FifoNode : Type 0 → Type 0 → Type 0
FifoNode = Node

abbrev pub FifoInner : Type 0 → Type 0 → Type 0
FifoInner = LruInner

pub record Fifo (K V : Type 0) : Type 0 where
  pub inner : FifoInner K V
  pub capacity : ℕ

abbrev pub new_node : {K V : Type 0} → K → V → FifoNode K V
new_node k v = record { key = k; value = v; prev = none; next = none }

module _ {K V : Type 0} where
  -- The first half of `push_back`: the tail, or the head of an empty list, refers to the node.
  unfoldable pub link_tail : FifoInner K V → ℕ → Option (FifoInner K V)
  link_tail inner node_index = elim inner.tail [
    | some tail_index ↦ do
      node ← slot inner.nodes tail_index
      some (record inner {
        nodes = set inner.nodes tail_index (some (record node { next = some node_index }));
      })
    | none ↦ some (record inner { head = some node_index })
  ]

  unfoldable pub push_back : FifoInner K V → ℕ → Option (FifoInner K V)
  push_back inner node_index = do
    let current_tail = inner.tail
    inner ← link_tail inner node_index
    node ← slot inner.nodes node_index
    some (record inner {
      nodes = set inner.nodes node_index (some (record node { prev = current_tail; next = none }));
      tail = some node_index;
    })

  unfoldable pub unlink_prev : FifoInner K V → Option ℕ → Option ℕ → Option (FifoInner K V)
  unlink_prev inner none node_next = some (record inner { head = node_next })
  unlink_prev inner (some pre_index) node_next = do
    node ← slot inner.nodes pre_index
    some (record inner {
      nodes = set inner.nodes pre_index (some (record node { next = node_next }));
    })

  unfoldable pub unlink_next : FifoInner K V → Option ℕ → Option ℕ → Option (FifoInner K V)
  unlink_next inner node_pre none = some (record inner { tail = node_pre })
  unlink_next inner node_pre (some next_index) = do
    node ← slot inner.nodes next_index
    some (record inner {
      nodes = set inner.nodes next_index (some (record node { prev = node_pre }));
    })

  unfoldable pub unlink_node : FifoInner K V → ℕ → Option (FifoInner K V)
  unfolding unlink_prev unlink_next
  unlink_node inner node_index = do
    node ← slot inner.nodes node_index
    inner ← unlink_prev inner node.prev node.next
    unlink_next inner node.prev node.next

  unfoldable pub new : ℕ → Fifo K V
  new capacity = record {
    inner = record { map = []; nodes = []; available_slots = []; head = none; tail = none };
    capacity = capacity;
  }

  -- `node.value = value`
  unfoldable pub update_value : FifoInner K V → ℕ → V → Option (FifoInner K V)
  update_value inner node_index value = do
    node ← slot inner.nodes node_index
    some
        (record inner { nodes = set inner.nodes node_index (some (record node { value = value })) })

  -- The slot for a new node: a free one, or one more at the end.
  unfoldable pub place : FifoInner K V → K → V → Option (FifoInner K V × ℕ)
  place inner key value = elim inner.available_slots [
    | idx ∷ rest ↦ do
      _ ← get_elem? inner.nodes idx
      some (
        record inner {
          nodes = set inner.nodes idx (some (new_node key value));
          available_slots = rest;
        },
        idx,
      )
    | [] ↦
        some (
          record inner { nodes = inner.nodes ++ some (new_node key value) ∷ [] },
          length inner.nodes,
        )
  ]

module _ {K V : Type 0} (dec : Discrete K) where
  -- `Self::remove(inner, node_index)`
  unfoldable pub remove_node : FifoInner K V → ℕ → Option (FifoInner K V)
  remove_node inner node_index = do
    inner ← unlink_node inner node_index
    o ← get_elem? inner.nodes node_index
    elim o [
      | none ↦ some inner
      | some node ↦ some (record inner {
        map = Assoc.remove dec node.key inner.map;
        nodes = set inner.nodes node_index none;
        available_slots = node_index ∷ inner.available_slots;
      })
    ]

  unfoldable pub get : Fifo K V → K → Option (Option V)
  get c key = elim (Assoc.get dec key c.inner.map) [
    | none ↦ some none
    | some node_index ↦ do node ← slot c.inner.nodes node_index; some (some node.value)
  ]

  -- Make room if the capacity is reached.
  unfoldable pub evict : FifoInner K V → ℕ → Option (FifoInner K V)
  evict inner capacity =
      if leb capacity (length inner.map)
      then elim inner.head [ none ↦ some inner | some node_index ↦ remove_node inner node_index ]
      else some inner

  unfoldable pub push_inner : FifoInner K V → ℕ → K → V → Option (FifoInner K V)
  push_inner inner capacity key value = elim (Assoc.get dec key inner.map) [
    | some node_index ↦ do
      inner ← unlink_node inner node_index
      inner ← update_value inner node_index value
      push_back inner node_index
    | none ↦ do
      inner ← evict inner capacity
      (inner, node_index) ← place inner key value
      push_back (record inner { map = Assoc.insert dec key node_index inner.map }) node_index
  ]

  unfoldable pub push : Fifo K V → K → V → Option (Fifo K V)
  unfolding push_inner
  push c key value = do
    inner ← push_inner c.inner c.capacity key value
    some (record c { inner = inner })

  unfoldable pub remove : Fifo K V → K → Option (Fifo K V)
  remove c key = elim (Assoc.get dec key c.inner.map) [
    | none ↦ some c
    | some node_index ↦ do inner ← remove_node c.inner node_index; some (record c { inner = inner })
  ]

  unfoldable pub contains : Fifo K V → K → Bool
  contains c key = Assoc.contains_key dec key c.inner.map

module _ {K V : Type 0} where
  unfoldable pub len : Fifo K V → ℕ
  len c = length c.inner.map

  unfoldable pub is_empty : Fifo K V → Bool
  is_empty c = length c.inner.map == 0
