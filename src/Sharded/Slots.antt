-- ===== src/Sharded/Slots.antt =====
-- The state that the eviction policies of src/sharded/eviction keep: `LruInner` and `FifoInner`
-- have the same fields. Indices into `nodes` take the place of pointers.
pub mod Claim
pub mod Links
pub mod Release
pub mod Update
pub mod Writes
pub mod Contents
pub mod Invariant
use test_thread_safe_lru_cac.Base.{ℕ, Option, none, some, List, get_elem?}
use test_thread_safe_lru_cac.Store.{Node}

-- The node in a slot: `nodes[i].as_ref().unwrap()`, where `none` is the panic of an index out of
-- bounds or of an empty slot.
unfoldable pub slot : {K V : Type 0} → List (Option (Node K V)) → ℕ → Option (Node K V)
slot nodes i = elim (get_elem? nodes i) [ none ↦ none | some o ↦ o ]

abbrev pub LruNode : Type 0 → Type 0 → Type 0
LruNode = Node

-- `available_slots` is a stack whose top, the end of the vector, stands first.
pub record LruInner (K V : Type 0) : Type 0 where
  pub map : List (K × ℕ)
  pub nodes : List (Option (LruNode K V))
  pub available_slots : List ℕ
  pub head : Option ℕ
  pub tail : Option ℕ
