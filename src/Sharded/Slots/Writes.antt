-- ===== src/Sharded/Slots/Writes.antt =====
-- What a slot holds after a write to the vector.
use test_thread_safe_lru_cac.Base.{
  ℕ, ◌≡◌, ◌<◌, Option, List, [], ◌∷◌, ◌++◌, ◌==◌, if◌then◌else◌, is_some, true, arith, length, set,
  get_elem?-set, get_elem?-append_last, lt_of_get_elem?,
}
use test_thread_safe_lru_cac.Store.{Node}
use test_thread_safe_lru_cac.Sharded.Slots.{slot}

module _ {K V : Type 0} (nodes : List (Option (Node K V))) where
  pub lt_of_slot : (i : ℕ) → is_some (slot nodes i) ≡ true → i < length nodes
  unfolding slot
  lt_of_slot i h = ground (arith, lt_of_get_elem? nodes i)

  pub slot-set :
      (i : ℕ) (o : Option (Node K V)) (j : ℕ)
      → i < length nodes
      → slot (set nodes i o) j ≡ (if i == j then o else slot nodes j)
  unfolding slot
  slot-set i o j h = ground (arith, get_elem?-set nodes i j o h)

  pub slot-append_last :
      (o : Option (Node K V)) (j : ℕ)
      → slot (nodes ++ o ∷ []) j ≡ (if length nodes == j then o else slot nodes j)
  unfolding slot
  slot-append_last o j = ground (arith, get_elem?-append_last nodes o j)
