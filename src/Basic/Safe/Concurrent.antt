-- ===== src/Basic/Safe/Concurrent.antt =====
-- The cache of src/basic/safe.rs under concurrent calls: every call is one critical section, so an
-- execution of several threads is a sequence of whole calls, in the order of their locks.
use test_thread_safe_lru_cac.Base.{
  ℕ, ◌≡◌, ◌<◌, refl, Bool, false, Option, none, some, List, [], ◌∷◌, ◌==◌, length, same_result, ◌≤◌,
  arith,
}
use test_thread_safe_lru_cac.Assoc
use test_thread_safe_lru_cac.Spec.{lru_get, lru_push}
use test_thread_safe_lru_cac.Basic.Lru
use test_thread_safe_lru_cac.Basic.Lru.Refine.{IsCacheOf}
use test_thread_safe_lru_cac.Basic.Lru.Methods.{
  new-IsCacheOf, push-IsCacheOf, get-IsCacheOf, size-IsCacheOf,
}
use test_thread_safe_lru_cac.Basic.Safe.{
  ThreadSafeLru, new, locked, push, get, len, is_empty, answered,
}

pub answered-some :
    {S A : Type 0} {a : A} (r : S × Option A) → r.1 ≡ some a → answered r ≡ some (r.0, a)
answered-some (c, none) e = absurd (ground arith)
answered-some (c, some b) e = ground arith

-- A call and what its caller got, `none` for a panic.
pub data Call (K V : Type 0) : Type 0 where
  call_push : K → V → Option {0} Unit → Call K V
  call_get : K → Option (Option V) → Call K V
  call_len : Option ℕ → Call K V
  call_is_empty : Option Bool → Call K V

-- A call of some thread. The allocator gives a push any address that no live box has.
pub data Step {K V : Type 0} (dec : Discrete K) (s : ThreadSafeLru K V)
    : Call K V → ThreadSafeLru K V → Type 0 where
  step_push :
      (fresh : ℕ) (k : K) (v : V)
      → s.lru.dll.cells fresh ≡ none
      → Step dec s (call_push k v (push dec fresh s k v).1) (push dec fresh s k v).0
  step_get : (k : K) → Step dec s (call_get k (get dec s k).1) (get dec s k).0
  step_len : Step dec s (call_len (len s).1) (len s).0
  step_is_empty : Step dec s (call_is_empty (is_empty s).1) (is_empty s).0

-- The executions from the constructor, with the calls in reverse.
pub data Reach {K V : Type 0} (dec : Discrete K) (cap : ℕ)
    : List (Call K V) → ThreadSafeLru K V → Type 0 where
  start : {s : ThreadSafeLru K V} → new cap ≡ some s → Reach dec cap [] s
  later :
      {past : List (Call K V)} {s t : ThreadSafeLru K V} {call : Call K V}
      → Reach dec cap past s
      → Step dec s call t
      → Reach dec cap (call ∷ past) t

module _ {K V : Type 0} (dec : Discrete K) (cap : ℕ) where
  -- The entries that the calls leave, most recently used first.
  abbrev pub entries_after : List (Call K V) → List (K × V)
  entries_after [] = []
  entries_after (call_push k v o ∷ past) = lru_push dec cap k v (entries_after past)
  entries_after (call_get k o ∷ past) = lru_get dec k (entries_after past)
  entries_after (call_len o ∷ past) = entries_after past
  entries_after (call_is_empty o ∷ past) = entries_after past

  -- What a caller should get, after the calls before.
  abbrev pub IsAnswer : Call K V → List (K × V) → Type 0
  IsAnswer (call_push k v o) l = o ≡ some tt
  IsAnswer (call_get k o) l = o ≡ some (Assoc.get dec k l)
  IsAnswer (call_len o) l = (o ≡ some (length l)) × (length l ≤ cap)
  IsAnswer (call_is_empty o) l = o ≡ some (0 == length l)

  abbrev pub IsExplained : List (Call K V) → Type 0
  IsExplained [] = Unit
  IsExplained (call ∷ past) = IsAnswer call (entries_after past) × IsExplained past

  -- An unpoisoned mutex around a cache that stands for the entries.
  pub record IsGuardOf (s : ThreadSafeLru K V) (l : List (K × V)) : Type 0 where
    pub inside : IsCacheOf dec cap s.lru l
    pub sound : s.poisoned ≡ false

  locked-IsGuardOf :
      {A : Type 0} {s : ThreadSafeLru K V} {l l' : List (K × V)} {a : A}
      (section : Lru.Lru K V → Option (Lru.Lru K V × A))
      → IsGuardOf s l
      → (c' : Lru.Lru K V) × (section s.lru ≡ some (c', a)) × IsCacheOf dec cap c' l'
      → IsGuardOf (locked s section).0 l' × ((locked s section).1 ≡ some a)
  unfolding locked
  locked-IsGuardOf section g (c', e, r) =
      rw (g.sound, e) (record { inside = r; sound = refl }, refl)

  -- A push on an unpoisoned mutex, and a read.
  pub push-IsGuardOf :
      {s : ThreadSafeLru K V} {l : List (K × V)} (fresh : ℕ) (k : K) (v : V)
      → s.lru.dll.cells fresh ≡ none
      → IsGuardOf s l
      → IsGuardOf (push dec fresh s k v).0 (lru_push dec cap k v l)
        × ((push dec fresh s k v).1 ≡ some tt)
  unfolding push
  push-IsGuardOf fresh k v vacant g =
      let (c', e, r) = push-IsCacheOf dec cap fresh k v g.inside vacant in
      locked-IsGuardOf _ g (c', rw e refl, r)

  pub get-IsGuardOf :
      {s : ThreadSafeLru K V} {l : List (K × V)} (k : K)
      → IsGuardOf s l
      → IsGuardOf (get dec s k).0 (lru_get dec k l) × ((get dec s k).1 ≡ some (Assoc.get dec k l))
  unfolding get
  get-IsGuardOf k g = locked-IsGuardOf _ g (get-IsCacheOf dec cap k g.inside)

  pub len-IsGuardOf :
      {s : ThreadSafeLru K V} {l : List (K × V)}
      → IsGuardOf s l
      → IsGuardOf (len s).0 l × ((len s).1 ≡ some (length l)) × (length l ≤ cap)
  unfolding len
  len-IsGuardOf {s} g =
      let (e, _, b) = size-IsCacheOf dec cap g.inside in
      let (g', a) = locked-IsGuardOf _ g (s.lru, rw e refl, g.inside) in (g', a, b)

  Step-IsGuardOf :
      {s t : ThreadSafeLru K V} {call : Call K V} (past : List (Call K V))
      → Step dec s call t
      → IsGuardOf s (entries_after past)
      → IsGuardOf t (entries_after (call ∷ past)) × IsAnswer call (entries_after past)
  unfolding is_empty
  Step-IsGuardOf _ (step_push fresh k v vacant) g = push-IsGuardOf fresh k v vacant g
  Step-IsGuardOf _ (step_get k) g = get-IsGuardOf k g
  Step-IsGuardOf _ step_len g = let (g', a, b) = len-IsGuardOf g in (g', (a, b))
  Step-IsGuardOf {s} _ step_is_empty g =
      let (_, e, _) = size-IsCacheOf dec cap g.inside in
      locked-IsGuardOf _ g (s.lru, rw e refl, g.inside)

  -- In every sequence of critical sections of a new mutex cache of positive capacity, where each
  -- new box gets an address that no live box has, no caller panics or uses a dead box, the mutex is
  -- never poisoned, and every caller gets what the LRU specification says.
  pub Reach-IsGuardOf :
      {past : List (Call K V)} {s : ThreadSafeLru K V}
      → 0 < cap
      → Reach dec cap past s
      → IsGuardOf s (entries_after past) × IsExplained past
  unfolding new
  Reach-IsGuardOf h (start e) =
      let (c, e', r) = new-IsCacheOf dec cap h in
      (
        same_result (λ s. IsGuardOf s [])
            (record { lru = c; poisoned = false }, rw e' refl, record { inside = r; sound = refl })
            e,
        tt,
      )
  Reach-IsGuardOf h (later {past} reach step) =
      let (g, x) = Reach-IsGuardOf h reach in
      let (g', a) = Step-IsGuardOf past step g in (g', (a, x))
