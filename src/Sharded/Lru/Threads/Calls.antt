-- ===== src/Sharded/Lru/Threads/Calls.antt =====
-- The calls of src/sharded/eviction/lru.rs between the locks: what each waits for, and how many moves
-- it has left.
use test_thread_safe_lru_cac.Base.{
  [], ◌∷◌, ℕ, zero, suc, ◌+◌, ◌≤◌, ◌<◌, ◌≡◌, refl, sym, ◌∙◌, ◌⊎◌, inl, inr, true, false, Option,
  List, arith,
}
use test_thread_safe_lru_cac.Sharded.Lru.{Lru}
use test_thread_safe_lru_cac.Sharded.Lru.Refine.{Represents, handle_recent_used-Represents}
use test_thread_safe_lru_cac.Sharded.Lru.Methods.{push-Represents, remove-Represents}
use test_thread_safe_lru_cac.Sharded.Lru.Concurrent.{Event}
use test_thread_safe_lru_cac.Sharded.Lru.Threads.{Pc, Move, Guards, reads, writes, mutexes}
use test_thread_safe_lru_cac.Sharded.Lru.Threads.Counts.{count}
use test_thread_safe_lru_cac.Sharded.Lru.Threads.Invariant.{IsFresh, get_lookup-Represents}
use test_thread_safe_lru_cac.Sharded.Lru.Threads.Refine.{push_flushed}

-- How many moves are left of the call, at most.
abbrev pub rank : {K V : Type 0} → Pc K V → ℕ
rank Pc.idle = 0
rank Pc.read_leaving = 1
rank Pc.write_leaving = 1
rank (Pc.flush_running _) = 2
rank (Pc.flush_locking _) = 3
rank (Pc.flush_start _) = 4
rank (Pc.get_recorded _ _) = 5
rank (Pc.get_recording _ _ _) = 6
rank (Pc.get_locking _ _ _) = 7
rank (Pc.get_reading _) = 8
rank (Pc.get_start _) = 9
rank (Pc.push_writing _ _) = 2
rank (Pc.push_flushing _ _) = 3
rank (Pc.push_locking _ _) = 4
rank (Pc.push_start _ _) = 5
rank (Pc.remove_writing _) = 2
rank (Pc.remove_start _) = 3
rank (Pc.contains_reading _) = 2
rank (Pc.contains_start _) = 3
rank Pc.len_reading = 2
rank Pc.len_start = 3
rank Pc.is_empty_reading = 2
rank Pc.is_empty_start = 3

abbrev pub holds : {K V : Type 0} → Pc K V → ℕ
holds p = reads p + writes p

pub zero-cases : (n : ℕ) → (n ≡ 0) ⊎ (0 < n)
zero-cases zero = inl refl
zero-cases (suc n) = inr (omega arith)

module _ {K V : Type 0} where
  pub count-holds : (ps : List (Pc K V)) → count holds ps ≡ count reads ps + count writes ps
  count-holds [] = refl
  count-holds (p ∷ ps) = omega (arith, count-holds ps)

  -- Who holds the mutex holds a guard of `inner`, and who holds one is in a call.
  pub mutexes-le-holds : (p : Pc K V) → mutexes p ≤ holds p
  mutexes-le-holds p = ground arith

  pub holds-rank : (p : Pc K V) → 0 < holds p → 0 < rank p
  holds-rank p h = ground arith

module _ {K V : Type 0} (dec : Discrete K) (cap : ℕ) where
  -- A move that the locks allow, of a thread in a call.
  pub record Ready (g : Guards) (c : Lru K V) (p : Pc K V) : Type 0 where
    pub event : Option (Event K V)
    pub cache' : Lru K V
    pub p' : Pc K V
    pub move : Move dec g c p event cache' p'
    pub fewer : rank p' < rank p

  -- A thread in a call can move, unless another thread holds what it waits for.
  pub can_move :
      (g : Guards) (c : Lru K V) (l : List (K × V)) (p : Pc K V)
      → Represents dec cap c l
      → IsFresh dec cap c p
      → 0 < rank p
      → (0 < mutexes p) ⊎ (g.locking ≡ 0)
      → (0 < holds p) ⊎ ((g.reading ≡ 0) × (g.writing ≡ 0))
      → Ready g c p
  can_move g c l Pc.idle r f b m h = absurd (omega arith)
  can_move g c l (Pc.get_start k) r f b m h = record {
    event = _;
    cache' = _;
    p' = _;
    move = Move.get_read_lock (ground (arith, h));
    fewer = omega arith;
  }
  can_move g c l (Pc.get_reading k) r f b m h = elim (get_lookup-Represents dec cap r k) [
    | inl (ran, _) ↦ record {
      event = _;
      cache' = _;
      p' = _;
      move = Move.get_missed ran;
      fewer = omega arith;
    }
    | inr found ↦ record {
      event = _;
      cache' = _;
      p' = _;
      move = Move.get_found found.ran;
      fewer = omega arith;
    }
  ]
  can_move g c l (Pc.get_locking k i v) r f b m h = record {
    event = _;
    cache' = _;
    p' = _;
    move = Move.get_lock (ground (arith, m));
    fewer = omega arith;
  }
  can_move g c l (Pc.get_recording k i v) r f b m h = record {
    event = _;
    cache' = _;
    p' = _;
    move = Move.get_unlock;
    fewer = omega arith;
  }
  can_move g c l (Pc.get_recorded v true) r f b m h = record {
    event = _;
    cache' = _;
    p' = _;
    move = Move.get_due;
    fewer = omega arith;
  }
  can_move g c l (Pc.get_recorded v false) r f b m h = record {
    event = _;
    cache' = _;
    p' = _;
    move = Move.get_done;
    fewer = omega arith;
  }
  can_move g c l (Pc.flush_start v) r f b m h = record {
    event = _;
    cache' = _;
    p' = _;
    move = Move.flush_write_lock (ground (arith, h)) (ground (arith, h));
    fewer = omega arith;
  }
  can_move g c l (Pc.flush_locking v) r f b m h = record {
    event = _;
    cache' = _;
    p' = _;
    move = Move.flush_lock (ground (arith, m));
    fewer = omega arith;
  }
  can_move g c l (Pc.flush_running v) r f b m h =
      let (_, e, _, _) = handle_recent_used-Represents dec cap r in
      record { event = _; cache' = _; p' = _; move = Move.flush_unlock e; fewer = omega arith }
  can_move g c l (Pc.push_start k v) r f b m h = record {
    event = _;
    cache' = _;
    p' = _;
    move = Move.push_write_lock (ground (arith, h)) (ground (arith, h));
    fewer = omega arith;
  }
  can_move g c l (Pc.push_locking k v) r f b m h = record {
    event = _;
    cache' = _;
    p' = _;
    move = Move.push_lock (ground (arith, m));
    fewer = omega arith;
  }
  can_move g c l (Pc.push_flushing k v) r f b m h =
      let (_, e, _, _) = handle_recent_used-Represents dec cap r in
      record { event = _; cache' = _; p' = _; move = Move.push_unlock e; fewer = omega arith }
  can_move g c l (Pc.push_writing k v) r f b m h =
      let (_, e, _) = push-Represents dec cap k v r in
      record {
        event = _;
        cache' = _;
        p' = _;
        move = Move.push_write (sym (push_flushed dec cap c k v f) ∙ e);
        fewer = omega arith;
      }
  can_move g c l (Pc.remove_start k) r f b m h = record {
    event = _;
    cache' = _;
    p' = _;
    move = Move.remove_write_lock (ground (arith, h)) (ground (arith, h));
    fewer = omega arith;
  }
  can_move g c l (Pc.remove_writing k) r f b m h =
      let (_, e, _) = remove-Represents dec cap k r in
      record { event = _; cache' = _; p' = _; move = Move.remove_write e; fewer = omega arith }
  can_move g c l (Pc.contains_start k) r f b m h = record {
    event = _;
    cache' = _;
    p' = _;
    move = Move.contains_read_lock (ground (arith, h));
    fewer = omega arith;
  }
  can_move g c l (Pc.contains_reading k) r f b m h = record {
    event = _;
    cache' = _;
    p' = _;
    move = Move.contains_read;
    fewer = omega arith;
  }
  can_move g c l Pc.len_start r f b m h = record {
    event = _;
    cache' = _;
    p' = _;
    move = Move.len_read_lock (ground (arith, h));
    fewer = omega arith;
  }
  can_move g c l Pc.len_reading r f b m h = record {
    event = _;
    cache' = _;
    p' = _;
    move = Move.len_read;
    fewer = omega arith;
  }
  can_move g c l Pc.is_empty_start r f b m h = record {
    event = _;
    cache' = _;
    p' = _;
    move = Move.is_empty_read_lock (ground (arith, h));
    fewer = omega arith;
  }
  can_move g c l Pc.is_empty_reading r f b m h = record {
    event = _;
    cache' = _;
    p' = _;
    move = Move.is_empty_read;
    fewer = omega arith;
  }
  can_move g c l Pc.read_leaving r f b m h = record {
    event = _;
    cache' = _;
    p' = _;
    move = Move.read_unlock;
    fewer = omega arith;
  }
  can_move g c l Pc.write_leaving r f b m h = record {
    event = _;
    cache' = _;
    p' = _;
    move = Move.write_unlock;
    fewer = omega arith;
  }

  pub rank-Move :
      {g : Guards} {c c' : Lru K V} {p p' : Pc K V} {ev : Option (Event K V)}
      → Move dec g c p ev c' p'
      → 0 < rank p
      → rank p' < rank p
  rank-Move (Move.call_get k) b = absurd (omega arith)
  rank-Move (Move.call_push k v) b = absurd (omega arith)
  rank-Move (Move.call_remove k) b = absurd (omega arith)
  rank-Move (Move.call_contains k) b = absurd (omega arith)
  rank-Move Move.call_len b = absurd (omega arith)
  rank-Move Move.call_is_empty b = absurd (omega arith)
  rank-Move _ b = omega arith
