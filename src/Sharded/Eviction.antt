-- ===== src/Sharded/Eviction.antt =====
-- src/sharded/eviction/mod.rs: the interface of the eviction policies, and what a cache may rely on.
pub mod Policies
use test_thread_safe_lru_cac.Base.{
  ℕ, ◌≡◌, ◌≢◌, ◌⊎◌, ◌≤◌, ◌<◌, suc, max, Bool, true, Option, none, some, List, [], ◌==◌, is_some,
  length,
}
use test_thread_safe_lru_cac.Assoc

-- The trait. A method that changes a shard returns the new one, and `none` if it panics.
pub record Eviction (K V : Type 0) : Type 1 where
  pub Shard : Type 0
  pub new : ℕ → Shard
  pub get : Shard → K → Option (Shard × Option V)
  pub push : Shard → K → V → Option Shard
  pub remove : Shard → K → Option Shard
  pub contains : Shard → K → Bool
  pub len : Shard → ℕ
  pub is_empty : Shard → Bool

-- A policy keeps a list of entries of at most its capacity. `push_list` and `get_list` are its own
-- rules; a pushed key is found, a push leaves every other entry alone or evicts it, which it does only
-- for a new key in a full cache, and a read hides nothing.
pub record IsPolicy {K V : Type 0} (dec : Discrete K) (e : Eviction K V) : Type 1 where
  pub Stands : ℕ → e.Shard → List (K × V) → Type 0
  pub push_list : ℕ → K → V → List (K × V) → List (K × V)
  pub get_list : K → List (K × V) → List (K × V)
  pub new_stands : (cap : ℕ) → Stands cap (e.new cap) []
  pub get_stands :
      (cap : ℕ) (s : e.Shard) (l : List (K × V)) (k : K)
      → Stands cap s l
      → (s' : e.Shard) × (e.get s k ≡ some (s', Assoc.get dec k l)) × Stands cap s' (get_list k l)
  pub push_stands :
      (cap : ℕ) (s : e.Shard) (l : List (K × V)) (k : K) (v : V)
      → Stands cap s l
      → (s' : e.Shard) × (e.push s k v ≡ some s') × Stands cap s' (push_list cap k v l)
  pub remove_stands :
      (cap : ℕ) (s : e.Shard) (l : List (K × V)) (k : K)
      → Stands cap s l
      → (s' : e.Shard) × (e.remove s k ≡ some s') × Stands cap s' (Assoc.remove dec k l)
  pub contains_is :
      (cap : ℕ) (s : e.Shard) (l : List (K × V)) (k : K)
      → Stands cap s l
      → e.contains s k ≡ is_some (Assoc.get dec k l)
  pub len_is :
      (cap : ℕ) (s : e.Shard) (l : List (K × V))
      → Stands cap s l
      → (e.len s ≡ length l) × (e.is_empty s ≡ (length l == 0)) × (length l ≤ max 1 cap)
  pub unique : (cap : ℕ) (s : e.Shard) (l : List (K × V)) → Stands cap s l → Assoc.Unique dec l
  pub get-push_list :
      (cap : ℕ) (k : K) (v : V) (l : List (K × V))
      → Assoc.Unique dec l
      → Assoc.get dec k (push_list cap k v l) ≡ some v
  pub kept-push_list :
      (cap : ℕ) (k j : K) (v : V) (l : List (K × V))
      → Assoc.Unique dec l
      → j ≢ k
      → (Assoc.get dec j (push_list cap k v l) ≡ none)
        ⊎ (Assoc.get dec j (push_list cap k v l) ≡ Assoc.get dec j l)
  pub get-get_list :
      (k j : K) (l : List (K × V)) → Assoc.get dec j (get_list k l) ≡ Assoc.get dec j l
  pub roomy-push_list :
      (cap : ℕ) (k j : K) (v : V) (l : List (K × V))
      → j ≢ k
      → length l < cap
      → Assoc.get dec j (push_list cap k v l) ≡ Assoc.get dec j l
  pub length-push_list :
      (cap : ℕ) (k : K) (v : V) (l : List (K × V))
      → length l < cap
      → length (push_list cap k v l) ≤ suc (length l)
  pub length-get_list : (k : K) (l : List (K × V)) → length (get_list k l) ≤ length l
  pub present-push_list :
      (cap : ℕ) (k j : K) (v : V) (l : List (K × V))
      → j ≢ k
      → is_some (Assoc.get dec k l) ≡ true
      → Assoc.get dec j (push_list cap k v l) ≡ Assoc.get dec j l
