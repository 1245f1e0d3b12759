-- ===== src/Tests/Allocator.antt =====
-- An allocator for the mutex cache, and that it gives an address that no live box has.
use test_thread_safe_lru_cac.Base.{
  ℕ, suc, ◌≤◌, max, ◌≡◌, none, some, List, [], ◌∷◌, arith, ℕ_discrete, Option-cases, inl, inr, ap,
}
use test_thread_safe_lru_cac.Assoc
use test_thread_safe_lru_cac.Store.{Store, key_of}
use test_thread_safe_lru_cac.Basic.Lru.{KeyRef}
use test_thread_safe_lru_cac.Basic.Lru.Map.{Resolves}
use test_thread_safe_lru_cac.Basic.Safe.{ThreadSafeLru}
use test_thread_safe_lru_cac.Basic.Safe.Concurrent.{IsGuardOf}

-- An allocator: the address after the highest one in the map.
abbrev pub highest : List (KeyRef × ℕ) → ℕ
highest [] = 0
highest ((r, node) ∷ m) = max node (highest m)

abbrev pub next_box : ThreadSafeLru ℕ ℕ → ℕ
next_box c = suc (highest c.lru.map)

highest_le :
    (s : Store ℕ ℕ) (m : List (KeyRef × ℕ)) (am : List (ℕ × ℕ)) (k a : ℕ)
    → Resolves s m am
    → Assoc.get ℕ_discrete k am ≡ some a
    → a ≤ highest m
highest_le s [] [] k a r e = absurd (ground arith)
highest_le s [] (x ∷ am) k a r e = absurd r
highest_le s (x ∷ m) [] k a r e = absurd r
highest_le s ((x, node) ∷ m) ((j, b) ∷ am) k a r e = ground (arith, highest_le s m am k a r.3)

pub next_box_vacant :
    (cap : ℕ) (c : ThreadSafeLru ℕ ℕ) (l : List (ℕ × ℕ))
    → IsGuardOf ℕ_discrete cap c l
    → c.lru.dll.cells (next_box c) ≡ none
next_box_vacant cap c l g = elim (Option-cases (c.lru.dll.cells (next_box c))) [
  | inl o ↦ o
  | inr (n, o) ↦ absurd (
      omega (
        arith,
        highest_le c.lru.dll.cells c.lru.map g.inside.index n.key (next_box c) g.inside.resolves
            (g.inside.indexed.complete n.key (next_box c) (ap key_of o)),
      ))
]
