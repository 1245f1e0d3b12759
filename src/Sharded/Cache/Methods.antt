-- ===== src/Sharded/Cache/Methods.antt =====
-- The methods of the cache over any policy that keeps the promises of the trait: every key has one
-- shard, by its hash, and the other shards are left alone.
use native.Mathlib.Nat.{mod-lt}
use test_thread_safe_lru_cac.Base.{
  ℕ, zero, suc, ◌*◌, ◌%◌, ◌≤◌, ◌<◌, max, ◌≡◌, ◌≢◌, refl, true, false, ◌∙◌, ap, Option, none, some,
  List, [], ◌==◌, if◌then◌else◌, is_some, length, length-set, get_elem?, get_elem?-set, set, arith,
  ==_refl, ==_ne,
}
use test_thread_safe_lru_cac.Assoc
use test_thread_safe_lru_cac.Sharded.Eviction.{Eviction, IsPolicy}
use test_thread_safe_lru_cac.Sharded.Cache.{
  Cache, shard_index, push, get, remove, contains, size, is_empty,
}
use test_thread_safe_lru_cac.Sharded.Cache.Shards.{
  AllStand, Located, locate, AllStand-set, length-AllStand, total, size_loop-total,
  is_empty_loop-total, total-le,
}

module _ {K V : Type 0} {dec : Discrete K} {e : Eviction K V} (p : IsPolicy dec e)
    (hash_one : K → ℕ) where
  -- `c` has `n` shards of capacity `cap`, which stand for the lists `ls`.
  pub record IsSpreadOf (cap n : ℕ) (c : Cache e) (ls : List (List (K × V))) : Type 0 where
    pub positive : 0 < n
    pub count : length c.shards ≡ n
    pub stand : AllStand p cap c.shards ls

  -- The list that holds the key, and its value there.
  abbrev pub or_empty : Option (List (K × V)) → List (K × V)
  or_empty none = []
  or_empty (some l) = l

  abbrev pub list_of : ℕ → List (List (K × V)) → K → List (K × V)
  list_of n ls k = or_empty (get_elem? ls (hash_one k % n))

  abbrev pub find : ℕ → List (List (K × V)) → K → Option V
  find n ls k = Assoc.get dec k (list_of n ls k)

  -- The lists after the list of a key was replaced.
  abbrev pub replace : ℕ → List (List (K × V)) → K → List (K × V) → List (List (K × V))
  replace n ls k l = set ls (hash_one k % n) l

  module _ {cap n : ℕ} {c : Cache e} {ls : List (List (K × V))} (r : IsSpreadOf cap n c ls) where
    index_lt : (k : K) → hash_one k % n < length c.shards
    index_lt k = omega (arith, mod-lt (hash_one k) r.positive, r.count)

    located : (k : K) → Located p cap c.shards ls (hash_one k % n)
    located k = locate p cap c.shards ls (hash_one k % n) r.stand (index_lt k)

    list_of-located : (k : K) → list_of n ls k ≡ (located k).list
    list_of-located k = ap or_empty (located k).list_is

    index_is : (k : K) → shard_index e hash_one k (length c.shards) ≡ some (hash_one k % n)
    index_is k = rw r.count (pos n r.positive)
      where
        pos : (m : ℕ) → 0 < m → shard_index e hash_one k m ≡ some (hash_one k % m)
        pos zero h = absurd (omega arith)
        pos (suc m) h = refl

    replaced-IsSpreadOf :
        (k : K) (s : e.Shard) (l : List (K × V))
        → p.Stands cap s l
        → IsSpreadOf cap n (record { shards = set c.shards (hash_one k % n) s }) (replace n ls k l)
    replaced-IsSpreadOf k s l h = record {
      positive = r.positive;
      count = length-set c.shards (hash_one k % n) s ∙ r.count;
      stand = AllStand-set p cap c.shards ls (hash_one k % n) s l r.stand h;
    }

    -- `push` changes the list of the key's shard as the policy says, and does not panic.
    pub push-IsSpreadOf :
        (k : K) (v : V)
        → (c' : Cache e) × (push e hash_one c k v ≡ some c')
          × IsSpreadOf cap n c' (replace n ls k (p.push_list cap k v (list_of n ls k)))
    unfolding push
    push-IsSpreadOf k v =
        let w = located k in
        let (s', ran, stands) = p.push_stands cap w.shard w.list k v w.stands in
        (
          record { shards = set c.shards (hash_one k % n) s' },
          rw (index_is k, w.shard_is, ran) refl,
          rw (list_of-located k) (replaced-IsSpreadOf k s' _ stands),
        )

    -- `get` finds the value of the key in its shard.
    pub get-IsSpreadOf :
        (k : K)
        → (c' : Cache e) × (get e hash_one c k ≡ some (c', find n ls k))
          × IsSpreadOf cap n c' (replace n ls k (p.get_list k (list_of n ls k)))
    unfolding get
    get-IsSpreadOf k =
        let w = located k in
        let (s', ran, stands) = p.get_stands cap w.shard w.list k w.stands in
        (
          record { shards = set c.shards (hash_one k % n) s' },
          rw (index_is k, w.shard_is, ran, list_of-located k) refl,
          rw (list_of-located k) (replaced-IsSpreadOf k s' _ stands),
        )

    -- `remove` drops the entry of the key from its shard.
    pub remove-IsSpreadOf :
        (k : K)
        → (c' : Cache e) × (remove e hash_one c k ≡ some c')
          × IsSpreadOf cap n c' (replace n ls k (Assoc.remove dec k (list_of n ls k)))
    unfolding remove
    remove-IsSpreadOf k =
        let w = located k in
        let (s', ran, stands) = p.remove_stands cap w.shard w.list k w.stands in
        (
          record { shards = set c.shards (hash_one k % n) s' },
          rw (index_is k, w.shard_is, ran) refl,
          rw (list_of-located k) (replaced-IsSpreadOf k s' _ stands),
        )

    -- `contains` tells whether `get` would find the key.
    pub contains-IsSpreadOf : (k : K) → contains e hash_one c k ≡ some (is_some (find n ls k))
    unfolding contains
    contains-IsSpreadOf k =
        let w = located k in
        rw (index_is k, w.shard_is, list_of-located k)
          (ap some (p.contains_is cap w.shard w.list k w.stands))

    -- The list of `j` after the list of `k` was replaced by `l`.
    pub list_of-replace :
        (k j : K) (l : List (K × V))
        → list_of n (replace n ls k l) j
          ≡ (if hash_one k % n == hash_one j % n then l else list_of n ls j)
    list_of-replace k j l =
        ap or_empty (get_elem?-set ls (hash_one k % n) (hash_one j % n) l index_lt_ls)
        ∙ ground arith
      where
        index_lt_ls : hash_one k % n < length ls
        index_lt_ls = omega (arith, index_lt k, length-AllStand p cap c.shards ls r.stand)

    -- What is found after the list of `k` was replaced by `l`.
    pub find-replace :
        (k j : K) (l : List (K × V))
        → find n (replace n ls k l) j
          ≡ (if hash_one k % n == hash_one j % n then Assoc.get dec j l else find n ls j)
    find-replace k j l = ap (Assoc.get dec j) (list_of-replace k j l) ∙ ground arith

    pub find-replace_self :
        (k : K) (l : List (K × V)) → find n (replace n ls k l) k ≡ Assoc.get dec k l
    find-replace_self k l = find-replace k k l ∙ ground (arith, ==_refl (hash_one k % n))

    -- A change of one key's shard hides nothing in another shard.
    pub find-replace_other :
        (k j : K) (l : List (K × V))
        → hash_one k % n ≢ hash_one j % n
        → find n (replace n ls k l) j ≡ find n ls j
    find-replace_other k j l ne = find-replace k j l ∙ ground (arith, ==_ne ne)

    pub Unique-list_of : (k : K) → Assoc.Unique dec (list_of n ls k)
    Unique-list_of k =
        rw (list_of-located k) (p.unique cap (located k).shard (located k).list (located k).stands)

    -- The size is the number of entries of all shards, and bounded by their capacities.
    pub size-IsSpreadOf :
        (size e c ≡ total ls) × (is_empty e c ≡ (total ls == 0)) × (total ls ≤ n * max 1 cap)
    unfolding size is_empty
    size-IsSpreadOf = (
      omega (arith, size_loop-total p cap 0 c.shards ls r.stand),
      is_empty_loop-total p cap c.shards ls r.stand,
      rw (← r.count) (total-le p cap c.shards ls r.stand),
    )

-- What the calls of one key mean for the next.
module _ {K V : Type 0} {dec : Discrete K} {e : Eviction K V} (p : IsPolicy dec e)
    (hash_one : K → ℕ) {cap n : ℕ} {c : Cache e} {ls : List (List (K × V))}
    (r : IsSpreadOf p hash_one cap n c ls) where
  -- From a sharded cache that stands for lists of entries, over any policy that keeps the promises
  -- of the trait: after a push, contains is true and get finds the pushed value; after a remove,
  -- contains is false and get finds nothing, and no call panics.
  pub get-cache_write :
      (k : K) (v : V)
      → ((c' c'' : Cache e) × (push e hash_one c k v ≡ some c')
          × (contains e hash_one c' k ≡ some true)
          × (get e hash_one c' k ≡ some (c'', some v)))
        × ((c' c'' : Cache e) × (remove e hash_one c k ≡ some c')
            × (contains e hash_one c' k ≡ some false)
            × (get e hash_one c' k ≡ some (c'', none)))
  get-cache_write k v =
      let (c1, e1, r1) = push-IsSpreadOf p hash_one r k v in
      let (c2, e2, r2) = get-IsSpreadOf p hash_one r1 k in
      let found =
        find-replace_self p hash_one r k _
        ∙ p.get-push_list cap k v (list_of p hash_one n ls k) (Unique-list_of p hash_one r k) in
      let (c3, e3, r3) = remove-IsSpreadOf p hash_one r k in
      let (c4, e4, r4) = get-IsSpreadOf p hash_one r3 k in
      let gone =
        find-replace_self p hash_one r k _
        ∙ Assoc.get-remove_self dec k (list_of p hash_one n ls k) (Unique-list_of p hash_one r k) in
      (
        (c1, c2, e1, rw (contains-IsSpreadOf p hash_one r1 k, found) refl, rw e2 (rw found refl)),
        (c3, c4, e3, rw (contains-IsSpreadOf p hash_one r3 k, gone) refl, rw e4 (rw gone refl)),
      )
