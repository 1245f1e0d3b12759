-- ===== src/Basic/Lru.antt =====
-- src/basic/lru.rs: the LRU cache over the doubly linked list. The map's keys are pointers to the
-- keys inside the boxes (`KeyRef`), and are compared through those pointers: `none` is a fault, such
-- as a comparison through a key whose box was given back.
pub mod Map
pub mod Push
pub mod Refine
pub mod Methods
use test_thread_safe_lru_cac.Base.{
  ℕ, zero, suc, ◌+◌, Bool, true, false, Option, none, some, List, [], ◌∷◌, ◌==◌, leb, if◌then◌else◌,
  is_some, ◌>>=◌, ite,
}
use test_thread_safe_lru_cac.Store.{Node, Store, key_of}
use test_thread_safe_lru_cac.Basic.Dll
use test_thread_safe_lru_cac.Basic.Dll.{Dll}

-- A key reference points to the key in the box at its address.
pub record KeyRef : Type 0 where
  pub key_ref : ℕ

pub record Lru (K V : Type 0) : Type 0 where
  pub dll : Dll K V
  pub map : List (KeyRef × ℕ)
  pub size : ℕ
  pub cap : ℕ

module _ {K V : Type 0} (dec : Discrete K) (cells : Store K V) where
  -- `map.get`, `map.remove` and `map.insert` compare by `KeyRef::eq`, through the pointers.
  unfoldable pub map_get : K → List (KeyRef × ℕ) → Option (Option ℕ)
  map_get k [] = some none
  map_get k ((r, node) ∷ m) = do
    j ← key_of (cells r.key_ref)
    ite (dec k j) (some (some node)) (map_get k m)

  unfoldable pub map_remove : K → List (KeyRef × ℕ) → Option (List (KeyRef × ℕ))
  map_remove k [] = some []
  map_remove k ((r, node) ∷ m) = do
    j ← key_of (cells r.key_ref)
    ite (dec k j) (some m) (do rest ← map_remove k m; some ((r, node) ∷ rest))

  unfoldable pub map_insert : KeyRef → ℕ → List (KeyRef × ℕ) → Option (List (KeyRef × ℕ))
  map_insert r node [] = some ((r, node) ∷ [])
  map_insert r node ((s, other) ∷ m) = do
    k ← key_of (cells r.key_ref)
    j ← key_of (cells s.key_ref)
    ite (dec k j) (some ((s, node) ∷ m)) (do rest ← map_insert r node m; some ((s, other) ∷ rest))

-- `self.size -= 1`
unfoldable pub decrement : ℕ → Option ℕ
decrement zero = none
decrement (suc n) = some n

module _ {K V : Type 0} where
  unfoldable pub new : ℕ → Option (Lru K V)
  new cap =
      if leb 1 cap then some (record { dll = Dll.new; map = []; size = 0; cap = cap }) else none

  -- `size`, with its assertion.
  unfoldable pub size : Lru K V → Option ℕ
  size c = if c.size == c.dll.size then some c.size else none

  unfoldable pub is_empty : Lru K V → Bool
  is_empty c = 0 == c.size

module _ {K V : Type 0} (dec : Discrete K) where
  -- The removal of a present key in `push`.
  unfoldable pub take_present : Lru K V → K → Option (Lru K V)
  unfolding map_get map_remove decrement
  take_present c k = do
    found ← map_get dec c.dll.cells k c.map
    elim found [
      | none ↦ some c
      | some node ↦ do
        map ← map_remove dec c.dll.cells k c.map
        (dll, _) ← Dll.remove c.dll node
        size ← decrement c.size
        some (record c { dll = dll; map = map; size = size })
    ]

  -- The eviction in `push`: the key is read and dropped from the map while its box is live.
  unfoldable pub evict : Lru K V → Option (Lru K V)
  unfolding map_remove decrement
  evict c =
      if leb c.cap c.size
      then (do
        back ← Dll.peek_back_ref c.dll
        elim back [
          | none ↦ some c
          | some key ↦ do
            map ← map_remove dec c.dll.cells key c.map
            (dll, _) ← Dll.pop_back c.dll
            size ← decrement c.size
            some (record c { dll = dll; map = map; size = size })
        ])
      else some c

  -- The end of `push`. `fresh` is the address of the new box.
  unfoldable pub add : ℕ → Lru K V → K → V → Option (Lru K V)
  unfolding map_insert
  add fresh c k v = do
    (dll, node) ← Dll.push_front fresh c.dll k v
    map ← map_insert dec dll.cells (record { key_ref = node }) node c.map
    some (record c { dll = dll; map = map; size = c.size + 1 })

  unfoldable pub push : ℕ → Lru K V → K → V → Option (Lru K V)
  unfolding take_present evict add
  push fresh c k v = do c ← take_present c k; c ← evict c; add fresh c k v

  -- A hit reads the value after the node was moved.
  unfoldable pub get : Lru K V → K → Option (Lru K V × Option V)
  unfolding map_get
  get c key = do
    found ← map_get dec c.dll.cells key c.map
    elim found [
      | none ↦ some (c, none)
      | some node ↦ do
        dll ← Dll.move_to_front c.dll node
        n ← dll.cells node
        some (record c { dll = dll }, some n.value)
    ]
