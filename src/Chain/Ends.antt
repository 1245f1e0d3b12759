-- ===== src/Chain/Ends.antt =====
-- The neighbours in a chain that gets a new first or last address.
use test_thread_safe_lru_cac.Base.{
  ℕ, ◌≡◌, refl, true, false, Option, none, some, List, [], ◌∷◌, ◌++◌, ◌==◌, is_some, if◌then◌else◌,
  arith, Bool-cases, inl, inr, ◌==◌,
}
use test_thread_safe_lru_cac.Chain.{has, Distinct, first_or, last_or, pred_or, succ_of, is_at}

-- Only the first address sees what stands before the list.
pub pred_or_start :
    (p : Option ℕ) (b : ℕ) (xs : List ℕ)
    → pred_or p b xs ≡ (if is_at (first_or none xs) b then p else pred_or none b xs)
pred_or_start p b [] = refl
pred_or_start p b (x ∷ xs) = ground arith

pub last_or_start :
    (p : Option ℕ) (xs : List ℕ)
    → last_or p xs ≡ (if is_some (first_or none xs) then last_or none xs else p)
last_or_start p [] = refl
last_or_start p (x ∷ xs) = refl

pub has-append_last :
    (a b : ℕ) (xs : List ℕ) → has b (xs ++ a ∷ []) ≡ (if b == a then true else has b xs)
has-append_last a b [] = ground arith
has-append_last a b (x ∷ xs) = ground (arith, has-append_last a b xs)

pub Distinct-append_last :
    (a : ℕ) (xs : List ℕ) → has a xs ≡ false → Distinct xs → Distinct (xs ++ a ∷ [])
Distinct-append_last a [] h d = (refl, tt)
Distinct-append_last a (x ∷ xs) h d =
    ground (arith, has-append_last a x xs, Distinct-append_last a xs)

pub first_or-append_last :
    (a : ℕ) (xs : List ℕ)
    → first_or none (xs ++ a ∷ [])
      ≡ (if is_some (first_or none xs) then first_or none xs else some a)
first_or-append_last a [] = refl
first_or-append_last a (x ∷ xs) = refl

pub last_or-append_last : (p : Option ℕ) (a : ℕ) (xs : List ℕ) → last_or p (xs ++ a ∷ []) ≡ some a
last_or-append_last p a [] = refl
last_or-append_last p a (x ∷ xs) = last_or-append_last (some x) a xs

pub pred_or-append_last :
    (p : Option ℕ) (a b : ℕ) (xs : List ℕ)
    → has a xs ≡ false
    → pred_or p b (xs ++ a ∷ []) ≡ (if b == a then last_or p xs else pred_or p b xs)
pred_or-append_last p a b [] h = ground arith
pred_or-append_last p a b (x ∷ xs) h = ground (arith, pred_or-append_last (some x) a b xs)

last_or-has :
    (p : Option ℕ) (b : ℕ) (xs : List ℕ)
    → has b xs ≡ false
    → is_at p b ≡ false
    → is_at (last_or p xs) b ≡ false
last_or-has p b [] h k = k
last_or-has p b (x ∷ xs) h k = ground (arith, last_or-has (some x) b xs)

pub succ_of-append_last :
    (a b : ℕ) (xs : List ℕ)
    → has a xs ≡ false
    → Distinct xs
    → succ_of b (xs ++ a ∷ []) ≡ (if is_at (last_or none xs) b then some a else succ_of b xs)
succ_of-append_last a b [] h d = ground arith
succ_of-append_last a b (x ∷ []) h d = ground arith
succ_of-append_last a b (x ∷ y ∷ ys) h d =
    ground (arith, succ_of-append_last a b (y ∷ ys), last_or-has (some y) x ys)

pub succ_of-append_last_self :
    (a : ℕ) (xs : List ℕ) → has a xs ≡ false → succ_of a (xs ++ a ∷ []) ≡ none
succ_of-append_last_self a [] h = ground arith
succ_of-append_last_self a (x ∷ xs) h = ground (arith, succ_of-append_last_self a xs)

-- A chain has a last address exactly when it has a first.
pub is_some-last_or :
    (p : Option ℕ) (xs : List ℕ) → is_some (last_or p xs) ≡ is_some (first_or p xs)
is_some-last_or p [] = refl
is_some-last_or p (x ∷ xs) = ground (arith, is_some-last_or (some x) xs)

pub has-last_or :
    (p : Option ℕ) (xs : List ℕ) {t : ℕ}
    → last_or p xs ≡ some t
    → is_at p t ≡ false
    → has t xs ≡ true
has-last_or p [] e k = ground arith
has-last_or p (x ∷ xs) {t} e k = elim (Bool-cases (x == t)) [
  | inl same ↦ ground arith
  | inr other ↦ ground (arith, has-last_or (some x) xs e other)
]

pub last_or-cons : (x : ℕ) (xs : List ℕ) → (t : ℕ) × (last_or (some x) xs ≡ some t)
last_or-cons x [] = (x, refl)
last_or-cons x (y ∷ ys) = last_or-cons y ys
