-- ===== src/Stress/Mutex/Runs.antt =====
-- Runs of calls on the mutex cache: they do not panic, and keep what every call keeps.

use test_thread_safe_lru_cac.Base.{ℕ, ◌<◌, ◌≡◌, refl, false, none, some, List, [], ◌∷◌, ℕ_discrete}
use test_thread_safe_lru_cac.Assoc
use test_thread_safe_lru_cac.Spec.{lru_push, lru_get}
use test_thread_safe_lru_cac.Basic.Lru.Methods.{new-IsCacheOf, Unique-IsCacheOf}
use test_thread_safe_lru_cac.Basic.Safe.{ThreadSafeLru, new, push, get}
use test_thread_safe_lru_cac.Basic.Safe.Concurrent.{
  IsGuardOf, push-IsGuardOf, get-IsGuardOf, answered-some,
}
use test_thread_safe_lru_cac.Stress.Threads.{All}
use test_thread_safe_lru_cac.Stress.Mutex.{Call, call_push, call_get, call, run, stress_test}

module _ {V : Type 0} (alloc : ThreadSafeLru ℕ V → ℕ) where
  module _ (cap : ℕ)
      (vacant : (c : ThreadSafeLru ℕ V) (l : List (ℕ × V))
        → IsGuardOf ℕ_discrete cap c l
        → c.lru.dll.cells (alloc c) ≡ none) where
    -- The entries after a call.
    abbrev pub after : List (ℕ × V) → Call V → List (ℕ × V)
    after l (call_push k v) = lru_push ℕ_discrete cap k v l
    after l (call_get k) = lru_get ℕ_discrete k l

    pub call-IsGuardOf :
        (c : ThreadSafeLru ℕ V) (l : List (ℕ × V)) (x : Call V)
        → IsGuardOf ℕ_discrete cap c l
        → (c' : ThreadSafeLru ℕ V) × (call alloc c x ≡ some c')
          × IsGuardOf ℕ_discrete cap c' (after l x)
    unfolding call
    call-IsGuardOf c l (call_push k v) g =
        let (g', a) = push-IsGuardOf ℕ_discrete cap (alloc c) k v (vacant c l g) g in
        (_, rw (answered-some (push ℕ_discrete (alloc c) c k v) a) refl, g')
    call-IsGuardOf c l (call_get k) g =
        let (g', a) = get-IsGuardOf ℕ_discrete cap k g in
        (_, rw (answered-some (get ℕ_discrete c k) a) refl, g')

    -- A run keeps what every call keeps.
    pub run-IsGuardOf :
        (Ok : Call V → Type 0) (P : List (ℕ × V) → Type 0)
        → ((l : List (ℕ × V)) (x : Call V) → Assoc.Unique ℕ_discrete l → Ok x → P l → P (after l x))
        → (calls : List (Call V)) (c : ThreadSafeLru ℕ V) (l : List (ℕ × V)) → All Ok calls
        → IsGuardOf ℕ_discrete cap c l
        → P l
        → (c' : ThreadSafeLru ℕ V) × (l' : List (ℕ × V)) × (run alloc c calls ≡ some c')
          × IsGuardOf ℕ_discrete cap c' l'
          × P l'
    unfolding run
    run-IsGuardOf Ok P keeps [] c l ok g h = (c, l, refl, g, h)
    run-IsGuardOf Ok P keeps (x ∷ calls) c l (ok, oks) g h =
        let (c1, ran, g1) = call-IsGuardOf c l x g in
        let u = Unique-IsCacheOf ℕ_discrete cap g.inside in
        let (c2, l2, rest, g2, h2) =
          run-IsGuardOf Ok P keeps calls c1 (after l x) oks g1 (keeps l x u ok h) in
        (c2, l2, rw (ran, rest) refl, g2, h2)

    pub stress_test-ends :
        (Ok : Call V → Type 0) (P : List (ℕ × V) → Type 0)
        → ((l : List (ℕ × V)) (x : Call V) → Assoc.Unique ℕ_discrete l → Ok x → P l → P (after l x))
        → 0 < cap
        → (calls : List (Call V)) → All Ok calls
        → P []
        → (c : ThreadSafeLru ℕ V) × (l : List (ℕ × V)) × (stress_test alloc cap calls ≡ some c)
          × IsGuardOf ℕ_discrete cap c l
          × P l
    unfolding stress_test new
    stress_test-ends Ok P keeps h calls ok p =
        let (lru, built, r) = new-IsCacheOf ℕ_discrete cap h in
        let (c, l, ran, g, p') =
          run-IsGuardOf Ok P keeps calls (record { lru = lru; poisoned = false }) [] ok
            (record { inside = r; sound = refl }) p in
        (c, l, rw (built, ran) refl, g, p')
