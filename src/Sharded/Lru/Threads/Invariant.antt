-- ===== src/Sharded/Lru/Threads/Invariant.antt =====
-- What every move of a thread keeps: the locks exclude one another, the locals of a thread are true
-- of the shard, and the shard stands for what the events have left.
use test_thread_safe_lru_cac.Base.{
  ℕ, ◌≤◌, ◌≡◌, refl, ◌∙◌, ◌⊎◌, inl, inr, Option, none, some, List, [], get_elem?, set, arith,
  Option-cases,
}
use test_thread_safe_lru_cac.Assoc
use test_thread_safe_lru_cac.Store.{entry_of}
use test_thread_safe_lru_cac.Sharded.Slots.{slot}
use test_thread_safe_lru_cac.Sharded.Lru.{Lru}
use test_thread_safe_lru_cac.Sharded.Lru.Refine.{Represents, Hit, lookup-Hit, lookup_miss}
use test_thread_safe_lru_cac.Sharded.Lru.Buffer.{recent_flush}
use test_thread_safe_lru_cac.Sharded.Lru.Concurrent.{Event, entries_after, IsExplained}
use test_thread_safe_lru_cac.Sharded.Lru.Threads.{
  Pc, Move, System, Guards, guards, reads, writes, mutexes, get_lookup,
}
use test_thread_safe_lru_cac.Sharded.Lru.Threads.Counts.{count, count-set, le-count}

module _ {K V : Type 0} (dec : Discrete K) (cap : ℕ) where
  -- What the locals of a thread say about the shard.
  abbrev pub IsFresh : Lru K V → Pc K V → Type 0
  IsFresh c (Pc.get_locking k i v) =
      (Assoc.get dec k c.inner.map ≡ some i) × (entry_of (slot c.inner.nodes i) ≡ some (k, v))
  IsFresh c (Pc.get_recording k i v) =
      (Assoc.get dec k c.inner.map ≡ some i) × (entry_of (slot c.inner.nodes i) ≡ some (k, v))
  IsFresh c (Pc.push_writing k v) = c.recent_nodes_idx ≡ []
  IsFresh c _ = Unit

  -- One writer alone, or no writer; one holder of the mutex.
  pub record Excludes (ps : List (Pc K V)) : Type 0 where
    pub apart : (count writes ps ≡ 0) ⊎ ((count writes ps ≡ 1) × (count reads ps ≡ 0))
    pub single : count mutexes ps ≤ 1

  pub record Inv (past : List (Event K V)) (s : System K V) : Type 0 where
    pub stands : Represents dec cap s.cache (entries_after dec cap past)
    pub explained : IsExplained dec cap past
    pub excludes : Excludes s.threads
    pub fresh : (i : ℕ) (p : Pc K V) → get_elem? s.threads i ≡ some p → IsFresh s.cache p

  -- A move takes no more guards, or those that its test found free.
  pub record Takes (g : Guards) (p p' : Pc K V) : Type 0 where
    pub inner :
        ((reads p' ≤ reads p) × (writes p' ≤ writes p))
        ⊎ ((g.writing ≡ 0)
            × ((writes p' ≡ 0) ⊎ ((writes p' ≡ 1) × (reads p' ≡ 0) × (g.reading ≡ 0))))
    pub mutex : (mutexes p' ≤ mutexes p) ⊎ ((g.locking ≡ 0) × (mutexes p' ≤ 1))

  pub Move-Takes :
      {g : Guards} {c c' : Lru K V} {p p' : Pc K V} {ev : Option (Event K V)}
      → Move dec g c p ev c' p'
      → Takes g p p'
  Move-Takes (Move.get_read_lock h) = record {
    inner = inr (h, inl refl);
    mutex = inl (omega arith);
  }
  Move-Takes (Move.contains_read_lock h) = record {
    inner = inr (h, inl refl);
    mutex = inl (omega arith);
  }
  Move-Takes (Move.len_read_lock h) = record {
    inner = inr (h, inl refl);
    mutex = inl (omega arith);
  }
  Move-Takes (Move.is_empty_read_lock h) = record {
    inner = inr (h, inl refl);
    mutex = inl (omega arith);
  }
  Move-Takes (Move.flush_write_lock r h) = record {
    inner = inr (h, inr (refl, refl, r));
    mutex = inl (omega arith);
  }
  Move-Takes (Move.push_write_lock r h) = record {
    inner = inr (h, inr (refl, refl, r));
    mutex = inl (omega arith);
  }
  Move-Takes (Move.remove_write_lock r h) = record {
    inner = inr (h, inr (refl, refl, r));
    mutex = inl (omega arith);
  }
  Move-Takes (Move.get_lock h) = record {
    inner = inl (omega arith, omega arith);
    mutex = inr (h, omega arith);
  }
  Move-Takes (Move.flush_lock h) = record {
    inner = inl (omega arith, omega arith);
    mutex = inr (h, omega arith);
  }
  Move-Takes (Move.push_lock h) = record {
    inner = inl (omega arith, omega arith);
    mutex = inr (h, omega arith);
  }
  Move-Takes _ = record { inner = inl (omega arith, omega arith); mutex = inl (omega arith) }

  pub Takes-Excludes :
      (ps : List (Pc K V)) (i : ℕ) (p p' : Pc K V)
      → Takes (guards ps) p p'
      → get_elem? ps i ≡ some p
      → Excludes ps
      → Excludes (set ps i p')
  Takes-Excludes ps i p p' t e x = record {
    apart = ground (
      arith,
      count-set reads ps i p p' e,
      count-set writes ps i p p' e,
      le-count reads ps i p e,
      le-count writes ps i p e,
    );
    single = ground (arith, count-set mutexes ps i p p' e);
  }

  -- Only a writer changes the nodes, and only a holder of a guard the buffer.
  pub record Keeps (p : Pc K V) (c c' : Lru K V) : Type 0 where
    pub inner : (writes p ≡ 1) ⊎ (c'.inner ≡ c.inner)
    pub recent : (writes p ≡ 1) ⊎ ((reads p ≡ 1) ⊎ (c'.recent_nodes_idx ≡ c.recent_nodes_idx))

  pub Move-Keeps :
      {g : Guards} {c c' : Lru K V} {p p' : Pc K V} {ev : Option (Event K V)}
      → Move dec g c p ev c' p'
      → Keeps p c c'
  Move-Keeps (Move.flush_unlock e) = record { inner = inl refl; recent = inl refl }
  Move-Keeps (Move.push_unlock e) = record { inner = inl refl; recent = inl refl }
  Move-Keeps (Move.push_write e) = record { inner = inl refl; recent = inl refl }
  Move-Keeps (Move.remove_write e) = record { inner = inl refl; recent = inl refl }
  Move-Keeps Move.get_unlock = record { inner = inr refl; recent = inr (inl refl) }
  Move-Keeps _ = record { inner = inr refl; recent = inr (inr refl) }

  -- A move leaves what the locals of the other threads say.
  pub IsFresh-other :
      (c c' : Lru K V) (p q : Pc K V)
      → Keeps p c c'
      → (writes p ≡ 1 → (reads q ≡ 0) × (writes q ≡ 0))
      → (reads p ≡ 1 → writes q ≡ 0)
      → IsFresh c q
      → IsFresh c' q
  IsFresh-other c c' p (Pc.get_locking k i v) keeps w r f = elim keeps.inner [
    | inl h ↦ absurd (omega (arith, w h))
    | inr same ↦ rw same f
  ]
  IsFresh-other c c' p (Pc.get_recording k i v) keeps w r f = elim keeps.inner [
    | inl h ↦ absurd (omega (arith, w h))
    | inr same ↦ rw same f
  ]
  IsFresh-other c c' p (Pc.push_writing k v) keeps w r f = elim keeps.recent [
    | inl h ↦ absurd (omega (arith, w h))
    | inr (inl h) ↦ absurd (omega (arith, r h))
    | inr (inr same) ↦ same ∙ f
  ]
  IsFresh-other c c' p _ keeps w r f = tt

  -- What the lookup of a key finds in a shard that stands for `l`.
  pub record Found (c : Lru K V) (l : List (K × V)) (r : Represents dec cap c l) (k : K)
      : Type 0 where
    pub index : ℕ
    pub hit : Hit dec cap r k index
    pub maps : Assoc.get dec k c.inner.map ≡ some index
    pub ran : get_lookup dec c k ≡ some (some (index, hit.value))

  pub get_lookup-Represents :
      {c : Lru K V} {l : List (K × V)} (r : Represents dec cap c l) (k : K)
      → ((get_lookup dec c k ≡ some none) × (Assoc.get dec k l ≡ none)) ⊎ Found c l r k
  unfolding get_lookup
  get_lookup-Represents {c} r k = elim (Option-cases (Assoc.get dec k c.inner.map)) [
    | inl e ↦ inl (rw (get_lookup, e) refl, lookup_miss dec cap r k e)
    | inr (a, e) ↦
        let h = lookup-Hit dec cap r k a e in
        inr (record { index = a; hit = h; maps = e; ran = looked a h.value e h.entry })
  ]
    where
      looked :
          (a : ℕ) (w : V)
          → Assoc.get dec k c.inner.map ≡ some a
          → entry_of (slot c.inner.nodes a) ≡ some (k, w)
          → get_lookup dec c k ≡ some (some (a, w))
      looked a w e h = elim (Option-cases (slot c.inner.nodes a)) [
        | inl o ↦ absurd (ground arith)
        | inr (n, o) ↦ rw (e, get_lookup, o) (ground arith)
      ]

  get_lookup_found :
      {c : Lru K V} {l : List (K × V)} (r : Represents dec cap c l) (k : K) (i : ℕ) (v : V)
      → get_lookup dec c k ≡ some (some (i, v))
      → (Assoc.get dec k c.inner.map ≡ some i) × (entry_of (slot c.inner.nodes i) ≡ some (k, v))
  get_lookup_found r k i v e = elim (get_lookup-Represents r k) [
    | inl (missed, _) ↦ absurd (ground arith)
    | inr f ↦ ground (arith, f.maps, f.ran, f.hit.entry)
  ]

  -- What the locals of the mover say after its move.
  pub Move-IsFresh :
      {g : Guards} {c c' : Lru K V} {l : List (K × V)} {p p' : Pc K V} {ev : Option (Event K V)}
      → Move dec g c p ev c' p'
      → Represents dec cap c l
      → IsFresh c p
      → IsFresh c' p'
  Move-IsFresh (Move.get_found {k} {i} {v} e) r f = get_lookup_found r k i v e
  Move-IsFresh (Move.get_lock h) r f = f
  Move-IsFresh {c} {c'} (Move.push_unlock e) r f = recent_flush c c' e
  Move-IsFresh _ r f = tt
