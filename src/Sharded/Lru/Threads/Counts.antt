-- ===== src/Sharded/Lru/Threads/Counts.antt =====
-- Sums over a list of threads.
use test_thread_safe_lru_cac.Base.{
  ℕ, zero, suc, ◌+◌, ◌≤◌, ◌<◌, ◌≡◌, ◌≢◌, refl, ap, some, List, [], ◌∷◌, get_elem?, set, arith, inl,
  inr, ◌⊎◌,
}

module _ {ℓ} {A : Type ℓ} (w : A → ℕ) where
  abbrev pub count : List A → ℕ
  count [] = 0
  count (p ∷ ps) = w p + count ps

  pub count-set :
      (ps : List A) (i : ℕ) (p q : A)
      → get_elem? ps i ≡ some p
      → count (set ps i q) + w p ≡ count ps + w q
  count-set [] i p q e = absurd (ground arith)
  count-set (x ∷ ps) zero p q e = ground (arith, e)
  count-set (x ∷ ps) (suc i) p q e = omega (arith, count-set ps i p q e)

  pub le-count : (ps : List A) (i : ℕ) (p : A) → get_elem? ps i ≡ some p → w p ≤ count ps
  le-count [] i p e = absurd (ground arith)
  le-count (x ∷ ps) zero p e = ground (arith, e)
  le-count (x ∷ ps) (suc i) p e = omega (arith, le-count ps i p e)

  -- Two threads count both.
  pub add-le-count :
      (ps : List A) (i j : ℕ) (p q : A)
      → i ≢ j
      → get_elem? ps i ≡ some p
      → get_elem? ps j ≡ some q
      → w p + w q ≤ count ps
  add-le-count [] i j p q ne e f = absurd (ground arith)
  add-le-count (x ∷ ps) zero zero p q ne e f = absurd (ne refl)
  add-le-count (x ∷ ps) zero (suc j) p q ne e f = ground (arith, le-count ps j q f)
  add-le-count (x ∷ ps) (suc i) zero p q ne e f = ground (arith, le-count ps i p e)
  add-le-count (x ∷ ps) (suc i) (suc j) p q ne e f =
      omega (arith, add-le-count ps i j p q (λ h. ne (ap suc h)) e f)

  -- Where the sum is positive, some thread adds to it.
  pub find-count :
      (ps : List A) → 0 < count ps → (i : ℕ) × (p : A) × (get_elem? ps i ≡ some p) × (0 < w p)
  find-count [] h = absurd (omega arith)
  find-count (x ∷ ps) h = elim (zero-cases (w x)) [
    | inl e ↦ let (i, p, f, pos) = find-count ps (omega arith) in (suc i, p, f, pos)
    | inr pos ↦ (zero, x, refl, pos)
  ]
    where
      zero-cases : (n : ℕ) → (n ≡ 0) ⊎ (0 < n)
      zero-cases zero = inl refl
      zero-cases (suc n) = inr (omega arith)
