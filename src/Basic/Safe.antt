-- ===== src/Basic/Safe.antt =====
-- src/basic/safe.rs: the cache of src/basic/lru.rs behind a mutex. A panic in a critical section
-- poisons the mutex, and `lock().unwrap()` panics on a poisoned one. An `Arc` of a value is that
-- value.
pub mod Concurrent
pub mod Recency
use test_thread_safe_lru_cac.Base.{ℕ, Bool, true, false, Option, none, some, if◌then◌else◌, ◌>>=◌}
use test_thread_safe_lru_cac.Basic.Lru

pub record ThreadSafeLru (K V : Type 0) : Type 0 where
  pub lru : Lru.Lru K V
  pub poisoned : Bool

module _ {K V : Type 0} where
  unfoldable pub new : ℕ → Option (ThreadSafeLru K V)
  new cap = do lru ← Lru.new cap; some (record { lru = lru; poisoned = false })

  -- The guard is dropped after the critical section, or by a panic in it.
  abbrev pub unlock {ℓ} :
      {A : Type ℓ} → ThreadSafeLru K V → Option (Lru.Lru K V × A) → ThreadSafeLru K V × Option A
  unlock c none = (record c { poisoned = true }, none)
  unlock c (some (lru, a)) = (record c { lru = lru }, some a)

  -- `self.lru.lock().unwrap()` and the critical section after it. The second component is what the
  -- caller gets, and `none` if it panics.
  unfoldable pub locked {ℓ} :
      {A : Type ℓ}
      → ThreadSafeLru K V
      → (Lru.Lru K V → Option (Lru.Lru K V × A))
      → ThreadSafeLru K V × Option A
  locked c section = if c.poisoned then (c, none) else unlock c (section c.lru)

  unfoldable pub len : ThreadSafeLru K V → ThreadSafeLru K V × Option ℕ
  len c = locked c (λ lru. do n ← Lru.size lru; some (lru, n))

  unfoldable pub is_empty : ThreadSafeLru K V → ThreadSafeLru K V × Option Bool
  is_empty c = locked c (λ lru. some (lru, Lru.is_empty lru))

module _ {K V : Type 0} (dec : Discrete K) where
  unfoldable pub push : ℕ → ThreadSafeLru K V → K → V → ThreadSafeLru K V × Option {0} Unit
  push fresh c k v = locked c (λ lru. do lru ← Lru.push dec fresh lru k v; some (lru, tt))

  unfoldable pub get : ThreadSafeLru K V → K → ThreadSafeLru K V × Option (Option V)
  get c key = locked c (λ lru. Lru.get dec lru key)

-- What a thread that calls a method goes on with: a panic of the call ends it.
abbrev pub answered {ℓ} : {S : Type 0} {A : Type ℓ} → S × Option A → Option (S × A)
answered (c, none) = none
answered (c, some a) = some (c, a)
