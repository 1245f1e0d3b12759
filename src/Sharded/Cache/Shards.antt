-- ===== src/Sharded/Cache/Shards.antt =====
-- The shards of a cache, one by one, against the lists of entries that they stand for.
use test_thread_safe_lru_cac.Base.{
  ℕ, zero, suc, ◌+◌, ◌*◌, ◌≤◌, ◌<◌, max, ◌≡◌, refl, ap, some, List, [], ◌∷◌, ◌++◌, ◌==◌, length,
  get_elem?, set, arith,
}
use test_thread_safe_lru_cac.Sharded.Eviction.{Eviction, IsPolicy}
use test_thread_safe_lru_cac.Sharded.Cache.{build_shards, is_empty_loop, size_loop}

-- The number of entries of all lists.
abbrev pub total {ℓ} : {A : Type ℓ} → List (List A) → ℕ
total [] = 0
total (l ∷ ls) = length l + total ls

-- As many empty lists.
abbrev pub empties {ℓ} : {A : Type ℓ} → ℕ → List (List A)
empties zero = []
empties (suc n) = [] ∷ empties n

pub total-empties {ℓ} : (A : Type ℓ) (n : ℕ) → total (empties {A = A} n) ≡ 0
total-empties A zero = refl
total-empties A (suc n) = omega (arith, total-empties A n)

module _ {K V : Type 0} {dec : Discrete K} {e : Eviction K V} (p : IsPolicy dec e) (cap : ℕ) where
  abbrev pub AllStand : List e.Shard → List (List (K × V)) → Type 0
  AllStand [] [] = Unit
  AllStand [] (l ∷ ls) = ⊥
  AllStand (s ∷ ss) [] = ⊥
  AllStand (s ∷ ss) (l ∷ ls) = p.Stands cap s l × AllStand ss ls

  -- The shard at an index and its list.
  pub record Located (ss : List e.Shard) (ls : List (List (K × V))) (i : ℕ) : Type 0 where
    pub shard : e.Shard
    pub list : List (K × V)
    pub shard_is : get_elem? ss i ≡ some shard
    pub list_is : get_elem? ls i ≡ some list
    pub stands : p.Stands cap shard list

  pub locate :
      (ss : List e.Shard) (ls : List (List (K × V))) (i : ℕ)
      → AllStand ss ls
      → i < length ss
      → Located ss ls i
  locate [] ls i a h = absurd (omega arith)
  locate (s ∷ ss) [] i a h = absurd a
  locate (s ∷ ss) (l ∷ ls) zero a h = record {
    shard = s;
    list = l;
    shard_is = refl;
    list_is = refl;
    stands = a.0;
  }
  locate (s ∷ ss) (l ∷ ls) (suc i) a h =
      let r = locate ss ls i a.1 (omega arith) in
      record {
        shard = r.shard;
        list = r.list;
        shard_is = r.shard_is;
        list_is = r.list_is;
        stands = r.stands;
      }

  pub AllStand-set :
      (ss : List e.Shard) (ls : List (List (K × V))) (i : ℕ) (s : e.Shard) (l : List (K × V))
      → AllStand ss ls
      → p.Stands cap s l
      → AllStand (set ss i s) (set ls i l)
  AllStand-set [] [] i s l a h = tt
  AllStand-set [] (_ ∷ ls) i s l a h = absurd a
  AllStand-set (_ ∷ ss) [] i s l a h = absurd a
  AllStand-set (_ ∷ ss) (_ ∷ ls) zero s l a h = (h, a.1)
  AllStand-set (_ ∷ ss) (_ ∷ ls) (suc i) s l a h = (a.0, AllStand-set ss ls i s l a.1 h)

  pub length-AllStand :
      (ss : List e.Shard) (ls : List (List (K × V))) → AllStand ss ls → length ls ≡ length ss
  length-AllStand [] [] a = refl
  length-AllStand [] (l ∷ ls) a = absurd a
  length-AllStand (s ∷ ss) [] a = absurd a
  length-AllStand (s ∷ ss) (l ∷ ls) a = ap suc (length-AllStand ss ls a.1)

  pub size_loop-total :
      (size : ℕ) (ss : List e.Shard) (ls : List (List (K × V)))
      → AllStand ss ls
      → size_loop e size ss ≡ size + total ls
  unfolding size_loop
  size_loop-total size [] [] a = omega arith
  size_loop-total size [] (l ∷ ls) a = absurd a
  size_loop-total size (s ∷ ss) [] a = absurd a
  size_loop-total size (s ∷ ss) (l ∷ ls) a =
      omega (arith, size_loop-total (size + e.len s) ss ls a.1, p.len_is cap s l a.0)

  -- The early return changes nothing: the loop tells whether no shard has an entry.
  pub is_empty_loop-total :
      (ss : List e.Shard) (ls : List (List (K × V)))
      → AllStand ss ls
      → is_empty_loop e ss ≡ (total ls == 0)
  unfolding is_empty_loop
  is_empty_loop-total [] [] a = refl
  is_empty_loop-total [] (l ∷ ls) a = absurd a
  is_empty_loop-total (s ∷ ss) [] a = absurd a
  is_empty_loop-total (s ∷ ss) (l ∷ ls) a =
      rw ((p.len_is cap s l a.0).1, is_empty_loop-total ss ls a.1) (ground arith)

  pub total-le :
      (ss : List e.Shard) (ls : List (List (K × V)))
      → AllStand ss ls
      → total ls ≤ length ss * max 1 cap
  total-le [] [] a = omega arith
  total-le [] (l ∷ ls) a = absurd a
  total-le (s ∷ ss) [] a = absurd a
  total-le (s ∷ ss) (l ∷ ls) a = omega (arith, total-le ss ls a.1, (p.len_is cap s l a.0).2)

  AllStand-append_last :
      (ss : List e.Shard) (ls : List (List (K × V))) (s : e.Shard) (l : List (K × V))
      → AllStand ss ls
      → p.Stands cap s l
      → AllStand (ss ++ s ∷ []) (ls ++ l ∷ [])
  AllStand-append_last [] [] s l a h = (h, tt)
  AllStand-append_last [] (_ ∷ ls) s l a h = absurd a
  AllStand-append_last (_ ∷ ss) [] s l a h = absurd a
  AllStand-append_last (_ ∷ ss) (_ ∷ ls) s l a h = (a.0, AllStand-append_last ss ls s l a.1 h)

  empties-append_last : (n : ℕ) → empties {A = K × V} n ++ [] ∷ [] ≡ [] ∷ empties n
  empties-append_last zero = refl
  empties-append_last (suc n) = ap (◌∷◌ []) (empties-append_last n)

  pub build_shards-AllStand :
      (rounds n : ℕ) (ss : List e.Shard)
      → AllStand ss (empties n)
      → AllStand (build_shards e rounds cap ss) (empties (rounds + n))
  unfolding build_shards
  build_shards-AllStand zero n ss a = rw (zero_add n) a
    where
      zero_add : (m : ℕ) → 0 + m ≡ m
      zero_add m = omega arith
  build_shards-AllStand (suc rounds) n ss a =
      let next = AllStand-append_last ss (empties n) (e.new cap) [] a (p.new_stands cap) in
      let next' : AllStand (ss ++ e.new cap ∷ []) (empties (suc n)) =
        rw (empties-append_last n) at next in
      rw (shift rounds n) (build_shards-AllStand rounds (suc n) (ss ++ e.new cap ∷ []) next')
    where
      shift : (r m : ℕ) → suc r + m ≡ r + suc m
      shift r m = omega arith
