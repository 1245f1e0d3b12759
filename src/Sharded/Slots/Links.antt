-- ===== src/Sharded/Slots/Links.antt =====
-- Writes of one link in the slot array, at an optional index.
use test_thread_safe_lru_cac.Base.{
  ℕ, ◌≡◌, refl, true, Option, none, some, List, ◌==◌, if◌then◌else◌, is_some, arith, length, set,
  length-set, Option-cases, inl, inr,
}
use test_thread_safe_lru_cac.Chain.{is_at}
use test_thread_safe_lru_cac.Store.{Node, with_prev, with_next, joined, fronted, backed}
use test_thread_safe_lru_cac.Sharded.Slots.{slot}
use test_thread_safe_lru_cac.Sharded.Slots.Writes.{slot-set, lt_of_slot}

abbrev pub Nodes : Type 0 → Type 0 → Type 0
Nodes K V = List (Option (Node K V))

module _ {K V : Type 0} where
  abbrev pub write_at : Nodes K V → ℕ → Option (Node K V) → Nodes K V
  write_at nodes i none = nodes
  write_at nodes i (some n) = set nodes i (some n)

  abbrev pub write_next : Nodes K V → Option ℕ → Option ℕ → Nodes K V
  write_next nodes none q = nodes
  write_next nodes (some i) q = write_at nodes i (with_next q (slot nodes i))

  abbrev pub write_prev : Nodes K V → Option ℕ → Option ℕ → Nodes K V
  write_prev nodes none p = nodes
  write_prev nodes (some i) p = write_at nodes i (with_prev p (slot nodes i))

  -- The index, if there is one, is that of an occupied slot.
  abbrev pub LiveAt : Nodes K V → Option ℕ → Type 0
  LiveAt nodes none = Unit
  LiveAt nodes (some i) = is_some (slot nodes i) ≡ true

  pub length-write_at :
      (nodes : Nodes K V) (i : ℕ) (o : Option (Node K V))
      → length (write_at nodes i o) ≡ length nodes
  length-write_at nodes i none = refl
  length-write_at nodes i (some n) = length-set nodes i (some n)

  pub slot-write_next :
      (nodes : Nodes K V) (p q : Option ℕ) (b : ℕ)
      → slot (write_next nodes p q) b
        ≡ (if is_at p b then with_next q (slot nodes b) else slot nodes b)
  slot-write_next nodes none q b = refl
  slot-write_next nodes (some i) q b = elim (Option-cases (slot nodes i)) [
    | inl e ↦ ground arith
    | inr (n, e) ↦
        ground (arith, slot-set nodes i (with_next q (slot nodes i)) b (lt_of_slot nodes i (rw e)))
  ]

  pub slot-write_prev :
      (nodes : Nodes K V) (q p : Option ℕ) (b : ℕ)
      → slot (write_prev nodes q p) b
        ≡ (if is_at q b then with_prev p (slot nodes b) else slot nodes b)
  slot-write_prev nodes none p b = refl
  slot-write_prev nodes (some i) p b = elim (Option-cases (slot nodes i)) [
    | inl e ↦ ground arith
    | inr (n, e) ↦
        ground (arith, slot-set nodes i (with_prev p (slot nodes i)) b (lt_of_slot nodes i (rw e)))
  ]

  pub length-write_next :
      (nodes : Nodes K V) (p q : Option ℕ) → length (write_next nodes p q) ≡ length nodes
  length-write_next nodes none q = refl
  length-write_next nodes (some i) q = length-write_at nodes i _

  pub length-write_prev :
      (nodes : Nodes K V) (q p : Option ℕ) → length (write_prev nodes q p) ≡ length nodes
  length-write_prev nodes none p = refl
  length-write_prev nodes (some i) p = length-write_at nodes i _

  -- Both neighbours of a node joined.
  abbrev pub join_nodes : Nodes K V → Option ℕ → Option ℕ → Nodes K V
  join_nodes nodes p q = write_prev (write_next nodes p q) q p

  pub slot-join_nodes :
      (nodes : Nodes K V) (p q : Option ℕ) (b : ℕ)
      → slot (join_nodes nodes p q) b ≡ joined p q (slot nodes) b
  slot-join_nodes nodes p q b =
      rw (slot-write_prev (write_next nodes p q) q p b, slot-write_next nodes p q b)

  pub length-join_nodes :
      (nodes : Nodes K V) (p q : Option ℕ) → length (join_nodes nodes p q) ≡ length nodes
  length-join_nodes nodes p q =
      rw (length-write_prev (write_next nodes p q) q p, length-write_next nodes p q)

  -- A node written before the head.
  abbrev pub front_nodes : Nodes K V → ℕ → Option ℕ → Nodes K V
  front_nodes nodes i h =
      let ns = write_prev nodes h (some i) in
      write_at ns i (with_prev none (with_next h (slot ns i)))

  -- A node written behind the tail.
  abbrev pub back_nodes : Nodes K V → ℕ → Option ℕ → Nodes K V
  back_nodes nodes i t =
      let ns = write_next nodes t (some i) in
      write_at ns i (with_prev t (with_next none (slot ns i)))

  pub slot-write_at :
      (nodes : Nodes K V) (i : ℕ) (o : Option (Node K V)) (b : ℕ)
      → is_some (slot nodes i) ≡ true
      → is_some o ≡ true
      → slot (write_at nodes i o) b ≡ (if i == b then o else slot nodes b)
  slot-write_at nodes i none b h k = ground arith
  slot-write_at nodes i (some n) b h k = slot-set nodes i (some n) b (lt_of_slot nodes i h)

  pub slot-front_nodes :
      (nodes : Nodes K V) (i : ℕ) (h : Option ℕ) (b : ℕ)
      → is_some (slot nodes i) ≡ true
      → slot (front_nodes nodes i h) b ≡ fronted i h (slot nodes) b
  slot-front_nodes nodes i h b live = ground (
    arith,
    slot-write_prev nodes h (some i) i,
    slot-write_prev nodes h (some i) b,
    slot-write_at (write_prev nodes h (some i)) i
        (with_prev none (with_next h (slot (write_prev nodes h (some i)) i))) b,
  )

  pub slot-back_nodes :
      (nodes : Nodes K V) (i : ℕ) (t : Option ℕ) (b : ℕ)
      → is_some (slot nodes i) ≡ true
      → slot (back_nodes nodes i t) b ≡ backed i t (slot nodes) b
  slot-back_nodes nodes i t b live = ground (
    arith,
    slot-write_next nodes t (some i) i,
    slot-write_next nodes t (some i) b,
    slot-write_at (write_next nodes t (some i)) i
        (with_prev t (with_next none (slot (write_next nodes t (some i)) i))) b,
  )

  pub length-front_nodes :
      (nodes : Nodes K V) (i : ℕ) (h : Option ℕ) → length (front_nodes nodes i h) ≡ length nodes
  length-front_nodes nodes i h =
      rw
        (length-write_at (write_prev nodes h (some i)) i
          (with_prev none (with_next h (slot (write_prev nodes h (some i)) i))))
        (length-write_prev nodes h (some i))

  pub length-back_nodes :
      (nodes : Nodes K V) (i : ℕ) (t : Option ℕ) → length (back_nodes nodes i t) ≡ length nodes
  length-back_nodes nodes i t =
      rw
        (length-write_at (write_next nodes t (some i)) i
          (with_prev t (with_next none (slot (write_next nodes t (some i)) i))))
        (length-write_next nodes t (some i))
