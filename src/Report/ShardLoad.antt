-- ===== src/Report/ShardLoad.antt =====
-- The keys of examples/report.rs on the shards of the FIFO cache, while it is filled and later.
use test_thread_safe_lru_cac.Base.{
  ℕ, zero, suc, ◌+◌, ◌%◌, ◌≤◌, ◌<◌, ◌≡◌, ◌≢◌, sym, ap, ◌∙◌, true, List, ◌==◌, ==_refl,
  if◌then◌else◌, is_some, length, arith, ℕ_discrete, Bool-cases, inl, inr, zero_add, subst,
}
use test_thread_safe_lru_cac.Assoc
use test_thread_safe_lru_cac.Sharded.Cache
use test_thread_safe_lru_cac.Sharded.Cache.{capacity_per_shard}
use test_thread_safe_lru_cac.Sharded.Cache.Methods.{
  IsSpreadOf, find, list_of, replace, find-replace, list_of-replace, Unique-list_of,
}
use test_thread_safe_lru_cac.Sharded.Cache.Fresh.{same_find}
use test_thread_safe_lru_cac.Sharded.Eviction.Policies
use test_thread_safe_lru_cac.Sharded.Eviction.Policies.{fifo-IsPolicy}
use test_thread_safe_lru_cac.Sharded.Eviction.{IsPolicy}
use test_thread_safe_lru_cac.Report.{capacity, default_shards}

abbrev pub Fifo : Type 0
Fifo = Cache.Cache (Policies.fifo {V = ℕ} ℕ_discrete)

abbrev pub policy : IsPolicy ℕ_discrete (Policies.fifo {V = ℕ} ℕ_discrete)
policy = fifo-IsPolicy ℕ_discrete

abbrev pub cap : ℕ
cap = capacity_per_shard capacity default_shards

-- How many of the keys below `n` are on shard `j`.
abbrev pub load : (ℕ → ℕ) → ℕ → ℕ → ℕ
load hash_one j zero = 0
load hash_one j (suc n) = load hash_one j n + (if hash_one n % default_shards == j then 1 else 0)

load-suc :
    (hash_one : ℕ → ℕ) (n : ℕ)
    → load hash_one (hash_one n % default_shards) (suc n)
      ≡ suc (load hash_one (hash_one n % default_shards) n)
load-suc hash_one n = ground (arith, ==_refl (hash_one n % default_shards))

load_next : (hash_one : ℕ → ℕ) (j n : ℕ) → load hash_one j n ≤ load hash_one j (suc n)
load_next hash_one j n = ground arith

suc_plus : (m n : ℕ) → suc m + n ≡ suc (m + n)
suc_plus m n = omega arith

load_le : (hash_one : ℕ → ℕ) (j n m : ℕ) → load hash_one j n ≤ load hash_one j (m + n)
load_le hash_one j n zero = rw (zero_add n) (omega arith)
load_le hash_one j n (suc m) =
    rw (suc_plus m n) (omega (arith, load_le hash_one j n m, load_next hash_one j (m + n)))

-- A key that is still to come has room on its shard.
pub load_room :
    (hash_one : ℕ → ℕ) (i rounds n bound : ℕ)
    → rounds + suc i ≡ n
    → load hash_one (hash_one i % default_shards) n ≤ bound
    → load hash_one (hash_one i % default_shards) i < bound
load_room hash_one i rounds n bound e fits =
    at_sum (rw e at (load_le hash_one (hash_one i % default_shards) (suc i) rounds))
  where
    at_sum :
        load hash_one (hash_one i % default_shards) (suc i)
          ≤ load hash_one (hash_one i % default_shards) n
        → load hash_one (hash_one i % default_shards) i < bound
    at_sum le = omega (arith, le, fits, load-suc hash_one i)

module _ (hash_one : ℕ → ℕ) where
  abbrev pub IsFound : List (List (ℕ × ℕ)) → ℕ → Type 0
  IsFound ls k = is_some (find policy hash_one default_shards ls k) ≡ true

  abbrev pub AllFound : ℕ → List (List (ℕ × ℕ)) → Type 0
  AllFound m ls = (k : ℕ) → k < m → IsFound ls k

  abbrev pub AllRoomy : ℕ → List (List (ℕ × ℕ)) → Type 0
  AllRoomy m ls =
      (k : ℕ)
      → length (list_of policy hash_one default_shards ls k)
        ≤ load hash_one (hash_one k % default_shards) m

  module _ {c : Fifo} {ls : List (List (ℕ × ℕ))}
      (r : IsSpreadOf policy hash_one cap default_shards c ls) where
    -- A change of the list of `k` that keeps its other entries.
    pub replaced-IsFound :
        (k j : ℕ) (l : List (ℕ × ℕ))
        → is_some (Assoc.get ℕ_discrete k l) ≡ true
        → (j ≢ k
            → Assoc.get ℕ_discrete j l
              ≡ Assoc.get ℕ_discrete j (list_of policy hash_one default_shards ls k))
        → (j ≢ k → IsFound ls j)
        → IsFound (replace policy hash_one default_shards ls k l) j
    replaced-IsFound k j l own kept f = elim (ℕ_discrete j k) [
      | yes e ↦
          subst (λ i. IsFound (replace policy hash_one default_shards ls k l) i) (sym e)
            (rw (find-replace policy hash_one r k k l, ==_refl (hash_one k % default_shards)) own)
      | no ne ↦ elim (Bool-cases (hash_one k % default_shards == hash_one j % default_shards)) [
        | inl h ↦
            rw (find-replace policy hash_one r k j l, h)
              (ap is_some (kept ne ∙ same_find policy hash_one r k j h) ∙ f ne)
        | inr h ↦ rw (find-replace policy hash_one r k j l, h) (f ne)
      ]
    ]

    length-replaced :
        (k j bound : ℕ) (l : List (ℕ × ℕ))
        → (hash_one k % default_shards ≡ hash_one j % default_shards → length l ≤ bound)
        → length (list_of policy hash_one default_shards ls j) ≤ bound
        → length (
            list_of policy hash_one default_shards
              (replace policy hash_one default_shards ls k l)
              j)
          ≤ bound
    length-replaced k j bound l same other =
        elim (Bool-cases (hash_one k % default_shards == hash_one j % default_shards)) [
          | inl b ↦ rw (list_of-replace policy hash_one r k j l, b) (same (ground arith))
          | inr b ↦ rw (list_of-replace policy hash_one r k j l, b) other
        ]

    pub filled-AllFound :
        (i : ℕ)
        → load hash_one (hash_one i % default_shards) i < cap
        → AllFound i ls
        → AllRoomy i ls
        → AllFound (suc i) (
            replace policy hash_one default_shards ls i
              (policy.push_list cap i i (list_of policy hash_one default_shards ls i)))
          × AllRoomy (suc i) (
              replace policy hash_one default_shards ls i
                (policy.push_list cap i i (list_of policy hash_one default_shards ls i)))
    filled-AllFound i h f a =
        let l = list_of policy hash_one default_shards ls i in
        let roomy : length l < cap = omega (arith, a i) in
        (
          λ j lt.
              replaced-IsFound i j _
                (ap is_some (policy.get-push_list cap i i l (Unique-list_of policy hash_one r i)))
                (λ ne. policy.roomy-push_list cap i j i l ne roomy)
                (λ ne. f j (ground (arith, lt))),
          λ j.
              length-replaced i j (load hash_one (hash_one j % default_shards) (suc i)) _
                (λ e.
                  subst (λ s. length (policy.push_list cap i i l) ≤ load hash_one s (suc i)) e
                    (omega
                      (arith, policy.length-push_list cap i i l roomy, a i, load-suc hash_one i)))
                (omega (arith, a j, load_next hash_one (hash_one j % default_shards) i)),
        )
