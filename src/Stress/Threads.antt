-- ===== src/Stress/Threads.antt =====
-- The threads that a test spawns, each with the list of its calls, and the orders in which the calls
-- can run.
use test_thread_safe_lru_cac.Base.{
  ℕ, zero, suc, ◌+◌, ◌≡◌, Option, some, List, [], ◌∷◌, get_elem?, set, ap, none, arith, subst, ◌<◌,
}

-- `thread::scope` with a loop over `t` that spawns one thread each.
abbrev pub spawned {ℓ} : {A : Type ℓ} → (ℕ → List A) → ℕ → ℕ → List (List A)
spawned program zero t = []
spawned program (suc threads) t = program t ∷ spawned program threads (t + 1)

abbrev pub AllEmpty {ℓ} : {A : Type ℓ} → List (List A) → Type 0
AllEmpty [] = Unit
AllEmpty ([] ∷ ps) = AllEmpty ps
AllEmpty ((x ∷ p) ∷ ps) = ⊥

-- The calls of all threads in some order that keeps the order of each thread.
pub data Interleaves {A : Type 0} : List (List A) → List A → Type 0 where
  joined : {ps : List (List A)} → AllEmpty ps → Interleaves ps []
  next :
      {ps : List (List A)} {x : A} {p xs : List A} (t : ℕ)
      → get_elem? ps t ≡ some (x ∷ p)
      → Interleaves (set ps t p) xs
      → Interleaves ps (x ∷ xs)

or_else {ℓ} : {A : Type ℓ} → A → Option A → A
or_else a none = a
or_else a (some b) = b

some_inj {ℓ} : {A : Type ℓ} {a b : A} → some a ≡ some b → a ≡ b
unfolding or_else
some_inj {a = a} e = ap (or_else a) e

module _ {A : Type 0} (P : A → Type 0) where
  abbrev pub All : List A → Type 0
  All [] = Unit
  All (x ∷ xs) = P x × All xs

  abbrev pub AllThreads : List (List A) → Type 0
  AllThreads [] = Unit
  AllThreads (p ∷ ps) = All p × AllThreads ps

  at_thread :
      (ps : List (List A)) (t : ℕ) (x : A) (p : List A)
      → AllThreads ps
      → get_elem? ps t ≡ some (x ∷ p)
      → P x × AllThreads (set ps t p)
  at_thread [] t x p a e = absurd (ground arith)
  at_thread (q ∷ ps) zero x p a e = let b = subst All (some_inj e) a.0 in (b.0, (b.1, a.1))
  at_thread (q ∷ ps) (suc t) x p a e = let (h, rest) = at_thread ps t x p a.1 e in (h, (a.0, rest))

  -- What holds of every call of every thread holds of the calls in any order.
  pub All-Interleaves :
      (ps : List (List A)) (xs : List A) → Interleaves ps xs → AllThreads ps → All xs
  All-Interleaves ps _ (joined e) a = tt
  All-Interleaves ps (x ∷ xs) (next {p = p} t e rest) a =
      let (h, a') = at_thread ps t x p a e in (h, All-Interleaves (set ps t p) xs rest a')

  pub All-spawned :
      (program : ℕ → List A) (n t : ℕ)
      → ((u : ℕ) → u < t + n → All (program u))
      → AllThreads (spawned program n t)
  All-spawned program zero t h = tt
  All-spawned program (suc n) t h =
      (h t (omega arith), All-spawned program n (t + 1) (λ u b. h u (omega arith)))
