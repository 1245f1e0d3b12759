-- ===== src/Store.antt =====
-- Nodes at addresses, whatever holds them: the slots of a vector or the boxes of a heap. The
-- writes of links that the list operations come down to, and what it means that the links of a
-- store spell a chain of addresses.
pub mod Unlink
pub mod Ends
pub mod Entries
pub mod Index
use test_thread_safe_lru_cac.Base.{
  ℕ, ◌≡◌, true, Option, none, some, List, [], ◌∷◌, ◌==◌, if◌then◌else◌, ap, ◌∙◌,
}
use test_thread_safe_lru_cac.Chain.{has, Distinct, first_or, last_or, pred_or, succ_of, is_at}

-- `LruNode`, `FifoNode` and `Node` have the same fields.
pub record Node (K V : Type 0) : Type 0 where
  pub key : K
  pub value : V
  pub prev : Option ℕ
  pub next : Option ℕ

abbrev pub Store : Type 0 → Type 0 → Type 0
Store K V = ℕ → Option (Node K V)

module _ {K V : Type 0} where
  abbrev pub links_of : Option (Node K V) → Option (Option ℕ × Option ℕ)
  links_of none = none
  links_of (some n) = some (n.prev, n.next)

  abbrev pub entry_of : Option (Node K V) → Option (K × V)
  entry_of none = none
  entry_of (some n) = some (n.key, n.value)

  abbrev pub key_of : Option (Node K V) → Option K
  key_of none = none
  key_of (some n) = some n.key

  abbrev pub with_prev : Option ℕ → Option (Node K V) → Option (Node K V)
  with_prev p none = none
  with_prev p (some n) = some (record n { prev = p })

  abbrev pub with_next : Option ℕ → Option (Node K V) → Option (Node K V)
  with_next q none = none
  with_next q (some n) = some (record n { next = q })

  -- The store after the neighbours `p` and `q` of a node were joined.
  abbrev pub joined : Option ℕ → Option ℕ → Store K V → Store K V
  joined p q s b =
      let o = if is_at p b then with_next q (s b) else s b in if is_at q b then with_prev p o else o

  -- The store after the node at `a` was put before the head `h`.
  abbrev pub fronted : ℕ → Option ℕ → Store K V → Store K V
  fronted a h s b =
      let o = if is_at h b then with_prev (some a) (s b) else s b in
      if a == b then with_prev none (with_next h o) else o

  -- The store after the node at `a` was put behind the tail `t`.
  abbrev pub backed : ℕ → Option ℕ → Store K V → Store K V
  backed a t s b =
      let o = if is_at t b then with_next (some a) (s b) else s b in
      if a == b then with_prev t (with_next none o) else o

  -- The links between `head` and `tail` spell the chain `xs`.
  pub record Linked (s : Store K V) (head tail : Option ℕ) (xs : List ℕ) : Type 0 where
    pub distinct : Distinct xs
    pub head_is : head ≡ first_or none xs
    pub tail_is : tail ≡ last_or none xs
    pub linked : (a : ℕ) → has a xs ≡ true → links_of (s a) ≡ some (pred_or none a xs, succ_of a xs)

  pub Linked-cong :
      (s t : Store K V) {h k : Option ℕ} {xs : List ℕ}
      → ((b : ℕ) → has b xs ≡ true → t b ≡ s b)
      → Linked s h k xs
      → Linked t h k xs
  Linked-cong s t same l = record {
    distinct = l.distinct;
    head_is = l.head_is;
    tail_is = l.tail_is;
    linked = λ a m. ap links_of (same a m) ∙ l.linked a m;
  }
