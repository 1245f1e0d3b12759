-- ===== src/Basic/Dll.antt =====
-- src/basic/dll.rs: a doubly linked list of boxed nodes. A pointer is an address, and `cells` holds
-- the boxes that the list owns. `none` is a fault: the use of a pointer to no live box, a failed
-- assertion, or a size below zero. The address of a new box is an argument, what the allocator
-- returns.
pub mod Links
pub mod Drop
pub mod Methods
use test_thread_safe_lru_cac.Base.{
  ℕ, zero, suc, ◌+◌, Bool, Option, none, some, List, [], ◌∷◌, ◌==◌, leb, if◌then◌else◌, is_some,
  ◌>>=◌,
}
use test_thread_safe_lru_cac.Store.{Node, Store, key_of}

abbrev pub Link : Type 0
Link = Option ℕ

pub record Dll (K V : Type 0) : Type 0 where
  pub cells : Store K V
  pub head : Link
  pub tail : Link
  pub size : ℕ

-- A box written, and a box given back.
abbrev pub put : {K V : Type 0} → Store K V → ℕ → Option (Node K V) → Store K V
put cells p o b = if p == b then o else cells b

abbrev pub new_node : {K V : Type 0} → K → V → Node K V
new_node k v = record { key = k; value = v; prev = none; next = none }

module _ {K V : Type 0} where
  unfoldable pub new : Dll K V
  new = record { cells = λ _. none; head = none; tail = none; size = 0 }

  -- `p.as_mut().next = q`
  unfoldable pub set_next : Dll K V → ℕ → Link → Option (Dll K V)
  set_next d p q = do
    node ← d.cells p
    some (record d { cells = put d.cells p (some (record node { next = q })) })

  -- `p.as_mut().prev = q`
  unfoldable pub set_prev : Dll K V → ℕ → Link → Option (Dll K V)
  set_prev d p q = do
    node ← d.cells p
    some (record d { cells = put d.cells p (some (record node { prev = q })) })

  -- `self.size -= 1`
  unfoldable pub shrink : Dll K V → Option (Dll K V)
  shrink d = elim d.size [ zero ↦ none | suc n ↦ some (record d { size = n }) ]

  -- A box goes out of scope.
  abbrev pub free : Dll K V → ℕ → Dll K V
  free d p = record d { cells = put d.cells p none }

  -- The match on the head in `push_front`.
  unfoldable pub link_front : Dll K V → ℕ → Link → Option (Dll K V)
  link_front d node_link_ptr (some current_head) = do
    d ← set_prev d current_head (some node_link_ptr)
    d ← set_next d node_link_ptr (some current_head)
    some (record d { head = some node_link_ptr })
  link_front d node_link_ptr none =
      some (record d { head = some node_link_ptr; tail = some node_link_ptr })

  unfoldable pub push_front : ℕ → Dll K V → K → V → Option (Dll K V × ℕ)
  push_front node_link_ptr d k v = do
    let boxed = record d { cells = put d.cells node_link_ptr (some (new_node k v)) }
    linked ← link_front boxed node_link_ptr d.head
    some (record linked { size = linked.size + 1 }, node_link_ptr)

  -- The match on the tail's predecessor in `pop_back`.
  unfoldable pub cut_tail : Dll K V → Link → Option (Dll K V)
  cut_tail d (some tail_prev) = do
    d ← set_next d tail_prev none
    some (record d { tail = some tail_prev })
  cut_tail d none = some (record d { head = none; tail = none })

  unfoldable pub pop_back : Dll K V → Option (Dll K V × Option (K × V))
  unfolding cut_tail set_next shrink
  pop_back d = elim d.tail [
    | none ↦ some (d, none)
    | some current_tail ↦ do
      tail_node ← d.cells current_tail
      d ← cut_tail d tail_node.prev
      d ← shrink d
      some (free d current_tail, some (tail_node.key, tail_node.value))
  ]

  unfoldable pub peek_back_ref : Dll K V → Option (Option K)
  peek_back_ref d = elim d.tail [
    | none ↦ some none
    | some tail ↦ do node ← d.cells tail; some (some node.key)
  ]

  -- The branches of `move_to_front` that take a node with a predecessor out of its place.
  unfoldable pub unlink_inner : Dll K V → ℕ → Link → Option (Dll K V)
  unfolding set_prev set_next
  unlink_inner d prev none = do d ← set_next d prev none; some (record d { tail = some prev })
  unlink_inner d prev (some next) = do d ← set_next d prev (some next); set_prev d next (some prev)

  -- The end of `move_to_front`.
  unfoldable pub relink_front : Dll K V → ℕ → Link → Option (Dll K V)
  relink_front d node_ptr none = some d
  relink_front d node_ptr (some current_head) = do
    d ← set_prev d current_head (some node_ptr)
    d ← set_next d node_ptr (some current_head)
    some (record d { head = some node_ptr })

  unfoldable pub move_to_front : Dll K V → ℕ → Option (Dll K V)
  unfolding unlink_inner set_prev set_next relink_front
  move_to_front d node_ptr = do
    node ← d.cells node_ptr
    elim node.prev [
      | none ↦ (if is_some d.head then some d else none)
      | some prev ↦ do
        d ← unlink_inner d prev node.next
        d ← set_prev d node_ptr none
        relink_front d node_ptr d.head
    ]

  -- The branches of `remove`, up to the return that drops the box.
  unfoldable pub cut : Dll K V → Link → Link → Option (Dll K V)
  unfolding set_prev set_next shrink unlink_inner
  cut d none (some next) = do d ← set_prev d next none; shrink (record d { head = some next })
  cut d none none = some (record d { tail = none; head = none; size = 0 })
  cut d (some prev) none = do d ← set_next d prev none; shrink (record d { tail = some prev })
  cut d (some prev) (some next) = do
    d ← set_next d prev (some next)
    d ← set_prev d next (some prev)
    shrink d

  unfoldable pub remove : Dll K V → ℕ → Option (Dll K V × (K × V))
  unfolding cut
  remove d node_ptr =
      if leb 1 d.size
      then (do
        node ← d.cells node_ptr
        d ← cut d node.prev node.next
        some (free d node_ptr, (node.key, node.value)))
      else none

  unfoldable pub is_empty : Dll K V → Bool
  is_empty d = 0 == d.size

  -- `drop`: `while !self.is_empty() { self.pop_back(); }`, with as much fuel as there are rounds.
  unfoldable pub drop : ℕ → Dll K V → Option (Dll K V)
  unfolding is_empty
  drop zero d = if is_empty d then some d else none
  drop (suc fuel) d =
      let rest = (do (d', _) ← pop_back d; drop fuel d') in if is_empty d then some d else rest
