-- ===== src/Sharded/Lru.antt =====
-- src/sharded/eviction/lru.rs: the index-based LRU policy with deferred promotions. A function
-- that may panic returns `none` when it does. A method that holds one lock is one function on the
-- state; `get` is two, since it gives up the read lock before it takes the write lock.
pub mod Buffer
pub mod Detach
pub mod Evict
pub mod Fresh
pub mod Links
pub mod Methods
pub mod Place
pub mod Promote
pub mod Push
pub mod Concurrent
pub mod Refine
pub mod Room
pub mod Threads
use test_thread_safe_lru_cac.Base.{
  ℕ, Bool, true, false, Option, none, some, List, [], ◌∷◌, ◌++◌, ◌==◌, leb, if◌then◌else◌, is_some,
  length, get_elem?, set, ◌>>=◌,
}
use test_thread_safe_lru_cac.Assoc
use test_thread_safe_lru_cac.Sharded.Slots.{LruNode, LruInner, slot}

pub record Lru (K V : Type 0) : Type 0 where
  pub inner : LruInner K V
  pub recent_nodes_idx : List ℕ
  pub capacity : ℕ

abbrev pub new_node : {K V : Type 0} → K → V → LruNode K V
new_node k v = record { key = k; value = v; prev = none; next = none }

module _ {K V : Type 0} where
  -- `if let Some(current_head_node) = inner.nodes[head_idx].as_mut() { … }`
  unfoldable pub link_head : LruInner K V → ℕ → ℕ → Option (LruInner K V)
  link_head inner head_idx node_index = do
    o ← get_elem? inner.nodes head_idx
    elim o [
      | none ↦ some inner
      | some node ↦ some (record inner {
        nodes = set inner.nodes head_idx (some (record node { prev = some node_index }));
      })
    ]

  unfoldable pub push_front : LruInner K V → ℕ → Option (LruInner K V)
  unfolding link_head
  push_front inner node_index = do
    let current_head_idx = inner.head
    inner ← elim current_head_idx [
      | some head_idx ↦ link_head inner head_idx node_index
      | none ↦ some (record inner { tail = some node_index })
    ]
    node ← slot inner.nodes node_index
    some (record inner {
      nodes =
          set inner.nodes node_index (some (record node { next = current_head_idx; prev = none }));
      head = some node_index;
    })

  unfoldable pub unlink_prev : LruInner K V → Option ℕ → Option ℕ → Option (LruInner K V)
  unlink_prev inner none node_next = some (record inner { head = node_next })
  unlink_prev inner (some pre_index) node_next = do
    node ← slot inner.nodes pre_index
    some (record inner {
      nodes = set inner.nodes pre_index (some (record node { next = node_next }));
    })

  unfoldable pub unlink_next : LruInner K V → Option ℕ → Option ℕ → Option (LruInner K V)
  unlink_next inner node_pre none = some (record inner { tail = node_pre })
  unlink_next inner node_pre (some next_index) = do
    node ← slot inner.nodes next_index
    some (record inner {
      nodes = set inner.nodes next_index (some (record node { prev = node_pre }));
    })

  unfoldable pub unlink_node : LruInner K V → ℕ → Option (LruInner K V)
  unfolding unlink_prev unlink_next
  unlink_node inner node_index = do
    node ← slot inner.nodes node_index
    inner ← unlink_prev inner node.prev node.next
    unlink_next inner node.prev node.next

  -- One round of the loop of `handle_recent_used`: `slot` is `none` also out of bounds.
  unfoldable pub promote_node : LruInner K V → ℕ → Option (LruInner K V)
  promote_node inner node_index =
      if is_some (slot inner.nodes node_index)
      then (do inner ← unlink_node inner node_index; push_front inner node_index)
      else some inner

  unfoldable pub promote_nodes : LruInner K V → List ℕ → Option (LruInner K V)
  promote_nodes inner [] = some inner
  promote_nodes inner (i ∷ is) = do inner ← promote_node inner i; promote_nodes inner is

  unfoldable pub handle_recent_used : Lru K V → Option (Lru K V)
  handle_recent_used c = do
    inner ← promote_nodes c.inner c.recent_nodes_idx
    some (record c { inner = inner; recent_nodes_idx = [] })

  -- The rest of `get`.
  unfoldable pub get_finish : Lru K V → Option (V × Bool) → Option (Lru K V × Option V)
  get_finish c none = some (c, none)
  get_finish c (some (value, handle_recency)) = do
    c ← (if handle_recency then handle_recent_used c else some c)
    some (c, some value)

  unfoldable pub new : ℕ → Lru K V
  new capacity = record {
    inner = record { map = []; nodes = []; available_slots = []; head = none; tail = none };
    recent_nodes_idx = [];
    capacity = capacity;
  }

  -- `node.value = value`
  unfoldable pub update_value : LruInner K V → ℕ → V → Option (LruInner K V)
  update_value inner node_index value = do
    node ← slot inner.nodes node_index
    some
        (record inner { nodes = set inner.nodes node_index (some (record node { value = value })) })

  -- The slot for a new node: a free one, or one more at the end.
  unfoldable pub place : LruInner K V → K → V → Option (LruInner K V × ℕ)
  place inner key value = elim inner.available_slots [
    | index ∷ rest ↦ do
      _ ← get_elem? inner.nodes index
      some (
        record inner {
          nodes = set inner.nodes index (some (new_node key value));
          available_slots = rest;
        },
        index,
      )
    | [] ↦
        some (
          record inner { nodes = inner.nodes ++ some (new_node key value) ∷ [] },
          length inner.nodes,
        )
  ]

module _ {K V : Type 0} (dec : Discrete K) where
  -- `Self::remove(inner, node_index)`
  unfoldable pub remove_node : LruInner K V → ℕ → Option (LruInner K V)
  remove_node inner node_index = do
    inner ← unlink_node inner node_index
    o ← get_elem? inner.nodes node_index
    elim o [
      | none ↦ some inner
      | some node ↦ some (record inner {
        map = Assoc.remove dec node.key inner.map;
        nodes = set inner.nodes node_index none;
        available_slots = node_index ∷ inner.available_slots;
      })
    ]

  -- The part of `get` under the read lock: the value, and whether the buffer is due.
  unfoldable pub get_read : Lru K V → K → Option (Lru K V × Option (V × Bool))
  get_read c key = elim (Assoc.get dec key c.inner.map) [
    | none ↦ some (c, none)
    | some node_index ↦ do
      node ← slot c.inner.nodes node_index
      let recent = c.recent_nodes_idx ++ node_index ∷ []
      some (record c { recent_nodes_idx = recent }, some (node.value, leb 64 (length recent)))
  ]

  unfoldable pub get : Lru K V → K → Option (Lru K V × Option V)
  unfolding get_read get_finish
  get c key = do (c, hit) ← get_read c key; get_finish c hit

  -- Make room if the capacity is reached.
  unfoldable pub evict : LruInner K V → ℕ → Option (LruInner K V)
  evict inner capacity =
      if leb capacity (length inner.map)
      then elim inner.tail [ none ↦ some inner | some tail_idx ↦ remove_node inner tail_idx ]
      else some inner

  unfoldable pub push_inner : LruInner K V → ℕ → K → V → Option (LruInner K V)
  unfolding update_value evict place
  push_inner inner capacity key value = elim (Assoc.get dec key inner.map) [
    | some node_index ↦ do
      inner ← unlink_node inner node_index
      inner ← update_value inner node_index value
      push_front inner node_index
    | none ↦ do
      inner ← evict inner capacity
      (inner, node_index) ← place inner key value
      push_front (record inner { map = Assoc.insert dec key node_index inner.map }) node_index
  ]

  unfoldable pub push : Lru K V → K → V → Option (Lru K V)
  unfolding push_inner
  push c key value = do
    c ← handle_recent_used c
    inner ← push_inner c.inner c.capacity key value
    some (record c { inner = inner })

  unfoldable pub remove : Lru K V → K → Option (Lru K V)
  remove c key = elim (Assoc.get dec key c.inner.map) [
    | none ↦ some c
    | some node_index ↦ do inner ← remove_node c.inner node_index; some (record c { inner = inner })
  ]

  unfoldable pub contains : Lru K V → K → Bool
  contains c key = Assoc.contains_key dec key c.inner.map

module _ {K V : Type 0} where
  unfoldable pub len : Lru K V → ℕ
  len c = length c.inner.map

  unfoldable pub is_empty : Lru K V → Bool
  is_empty c = length c.inner.map == 0
