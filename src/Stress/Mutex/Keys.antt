-- ===== src/Stress/Mutex/Keys.antt =====
-- A cache whose keys come from a range, and the ranges of the threads' keys.
use native.Mathlib.Nat.{mul-le-mul_right, suc-mul}
use test_thread_safe_lru_cac.Base.{
  ℕ, zero, suc, ◌+◌, ◌*◌, ◌%◌, ◌≤◌, ◌<◌, ◌≡◌, sym, ◌∙◌, ap, Bool, true, false, List, [], ◌∷◌, ◌==◌,
  leb, if◌then◌else◌, is_some, length, arith, Option-cases, inl, inr, ℕ_discrete,
}
use test_thread_safe_lru_cac.Assoc
use test_thread_safe_lru_cac.Spec.{
  lru_push, lru_get, drop_last, lru_push_miss, lru_push_hit, get-lru_get,
}
use test_thread_safe_lru_cac.Stress.Threads.{All}
use test_thread_safe_lru_cac.Stress.Mutex.{
  Call, call_get, key_of_call, hot_key, hot_loop, stress_loop, single_loop,
}

-- The `n` keys from `first` on.
abbrev pub Within : ℕ → ℕ → ℕ → Type 0
Within first n k = (first ≤ k) × (k < first + n)

module _ {V : Type 0} (first : ℕ) where
  abbrev pub OnlyWithin : ℕ → List (ℕ × V) → Type 0
  OnlyWithin n l = (k : ℕ) → is_some (Assoc.get ℕ_discrete k l) ≡ true → Within first n k

  -- A list without a repeated key has no more entries than there are keys.
  pub length-OnlyWithin :
      (n : ℕ) (l : List (ℕ × V)) → Assoc.Unique ℕ_discrete l → OnlyWithin n l → length l ≤ n
  length-OnlyWithin zero [] u h = omega arith
  length-OnlyWithin zero ((k, v) ∷ l) u h = absurd (ground (arith, h k))
  length-OnlyWithin (suc n) l u h = elim (Option-cases (Assoc.get ℕ_discrete (first + n) l)) [
    | inl e ↦ omega (arith, length-OnlyWithin n l u (λ k m. ground (arith, h k m)))
    | inr (v, e) ↦ omega (
      arith,
      length-OnlyWithin n (Assoc.remove ℕ_discrete (first + n) l)
          (Assoc.Unique-remove ℕ_discrete (first + n) l u)
          (λ k m. ground (
            arith,
            h k,
            Assoc.get-remove_self ℕ_discrete (first + n) l u,
            Assoc.get-remove_ne ℕ_discrete (first + n) k l,
          )),
      Assoc.length-remove ℕ_discrete (first + n) l (ap is_some e),
    )
  ]

  kept_after_drop :
      (j : ℕ) (l : List (ℕ × V))
      → is_some (Assoc.get ℕ_discrete j (drop_last l)) ≡ true
      → is_some (Assoc.get ℕ_discrete j l) ≡ true
  kept_after_drop j [] m = m
  kept_after_drop j ((k, v) ∷ []) m = absurd (ground arith)
  kept_after_drop j ((k, v) ∷ e ∷ l) m = ground (arith, kept_after_drop j (e ∷ l))

  roomy-OnlyWithin :
      (n : ℕ) (b : Bool) (l : List (ℕ × V))
      → OnlyWithin n l
      → OnlyWithin n (if b then drop_last l else l)
  roomy-OnlyWithin n true l h k m = h k (kept_after_drop k l m)
  roomy-OnlyWithin n false l h k m = h k m

  pub push-OnlyWithin :
      (n cap k : ℕ) (v : V) (l : List (ℕ × V))
      → Within first n k
      → OnlyWithin n l
      → OnlyWithin n (lru_push ℕ_discrete cap k v l)
  push-OnlyWithin n cap k v l in_range h = elim (Option-cases (Assoc.get ℕ_discrete k l)) [
    | inl e ↦
        rw (lru_push_miss ℕ_discrete cap k v l e)
          (λ j m. ground (arith, roomy-OnlyWithin n (leb cap (length l)) l h j))
    | inr (w, e) ↦
        rw (lru_push_hit ℕ_discrete cap k v l e)
          (λ j m. ground (arith, h j, Assoc.get-remove_ne ℕ_discrete k j l))
  ]

  pub get-OnlyWithin :
      (n k : ℕ) (l : List (ℕ × V)) → OnlyWithin n l → OnlyWithin n (lru_get ℕ_discrete k l)
  get-OnlyWithin n k l h j m = h j (ap is_some (sym (get-lru_get ℕ_discrete k j l)) ∙ m)

abbrev pub IsCallWithin : {V : Type 0} → ℕ → ℕ → Call V → Type 0
IsCallWithin first n x = Within first n (key_of_call x)

pub hot_loop-Within :
    {V : Type 0} (to_string : ℕ → V) (rounds i : ℕ)
    → All (IsCallWithin 1 5) (hot_loop to_string rounds i)
hot_loop-Within to_string zero i = tt
hot_loop-Within {V} to_string (suc rounds) i = (
  omega arith,
  maybe_get (i % 3 == 0) (hot_loop to_string rounds (i + 1))
      (hot_loop-Within to_string rounds (i + 1)),
)
  where
    maybe_get :
        (b : Bool) (rest : List (Call V))
        → All (IsCallWithin 1 5) rest
        → All (IsCallWithin 1 5) (if b then call_get (hot_key i) ∷ rest else rest)
    maybe_get true rest a = (omega arith, a)
    maybe_get false rest a = a

pub stress_loop-Within :
    {V : Type 0} (to_string : ℕ → V) (num_threads ops_per_thread t rounds i : ℕ)
    → t < num_threads
    → i + rounds ≤ ops_per_thread
    → All
        (IsCallWithin 0 (num_threads * ops_per_thread))
        (stress_loop to_string ops_per_thread t rounds i)
stress_loop-Within to_string n ops t zero i h b = tt
stress_loop-Within to_string n ops t (suc rounds) i h b =
    (in_range, (in_range, stress_loop-Within to_string n ops t rounds (i + 1) h (omega arith)))
  where
    suc_le : (t n : ℕ) → t < n → suc t ≤ n
    suc_le t n h = omega arith

    in_range : Within 0 (n * ops) (t * ops + i)
    in_range = omega (arith, mul-le-mul_right ops (suc_le t n h), suc-mul t ops)

pub single_loop-Within :
    {V : Type 0} (to_string : ℕ → V) (num_threads ops_per_thread rounds t : ℕ)
    → t + rounds ≤ num_threads
    → All
        (IsCallWithin 0 (num_threads * ops_per_thread + 1))
        (single_loop to_string ops_per_thread rounds t)
single_loop-Within to_string n ops zero t b = tt
single_loop-Within to_string n ops (suc rounds) t b =
    (in_range, (in_range, single_loop-Within to_string n ops rounds (t + 1) (omega arith)))
  where
    in_range : Within 0 (n * ops + 1) (t * ops)
    in_range = omega (arith, mul-le-mul_right ops (le_of t rounds n b))
      where
        le_of : (t rounds n : ℕ) → t + suc rounds ≤ n → t ≤ n
        le_of t rounds n h = omega arith
