-- ===== src/Chain/Erase.antt =====
-- The neighbours in a chain from which an address is taken out.
use test_thread_safe_lru_cac.Base.{
  ℕ, suc, ◌≡◌, refl, ◌≢◌, true, false, Option, none, some, List, [], ◌∷◌, is_some, length,
  if◌then◌else◌, arith,
}
use test_thread_safe_lru_cac.Chain.Ends.{has-last_or}
use test_thread_safe_lru_cac.Chain.{
  has, Distinct, first_or, last_or, pred_or, succ_of, erase, is_at, pred_or-ne, succ_of-ne,
}

first_or-erase_ne :
    (a x : ℕ) (xs : List ℕ)
    → has x xs ≡ false
    → first_or none (erase a xs)
      ≡ (if is_at (pred_or (some x) a xs) x then succ_of a xs else first_or none xs)
first_or-erase_ne a x [] h = refl
first_or-erase_ne a x (y ∷ ys) h = ground (arith, pred_or-ne (some y) a x ys)

-- The predecessor of the erased address takes over its successor.
pub succ_of-erase :
    (p : Option ℕ) (a b : ℕ) (xs : List ℕ)
    → Distinct xs
    → a ≢ b
    → is_at p b ≡ false
    → succ_of b (erase a xs) ≡ (if is_at (pred_or p a xs) b then succ_of a xs else succ_of b xs)
succ_of-erase p a b [] d h k = refl
succ_of-erase p a b (x ∷ xs) d h k =
    ground (arith, first_or-erase_ne a x xs, succ_of-erase (some x) a b xs)

-- The successor of the erased address takes over its predecessor.
pub pred_or-erase :
    (p : Option ℕ) (a b : ℕ) (xs : List ℕ)
    → Distinct xs
    → a ≢ b
    → pred_or p b (erase a xs) ≡ (if is_at (succ_of a xs) b then pred_or p a xs else pred_or p b xs)
pred_or-erase p a b [] d h = refl
pred_or-erase p a b (x ∷ []) d h = ground arith
pred_or-erase p a b (x ∷ y ∷ ys) d h =
    ground (arith, succ_of-ne a x (y ∷ ys), pred_or-erase (some x) a b (y ∷ ys))

pub is_some-pred_or :
    (x a : ℕ) (xs : List ℕ) → has a xs ≡ true → is_some (pred_or (some x) a xs) ≡ true
is_some-pred_or x a [] h = ground arith
is_some-pred_or x a (y ∷ ys) h = ground (arith, is_some-pred_or y a ys)

pub first_or-erase :
    (a : ℕ) (xs : List ℕ)
    → has a xs ≡ true
    → first_or none (erase a xs)
      ≡ (if is_some (pred_or none a xs) then first_or none xs else succ_of a xs)
first_or-erase a [] h = ground arith
first_or-erase a (x ∷ xs) h = ground (arith, is_some-pred_or x a xs)

pub last_or-erase :
    (p : Option ℕ) (a : ℕ) (xs : List ℕ)
    → has a xs ≡ true
    → last_or p (erase a xs) ≡ (if is_some (succ_of a xs) then last_or p xs else pred_or p a xs)
last_or-erase p a [] h = ground arith
last_or-erase p a (x ∷ []) h = ground arith
last_or-erase p a (x ∷ y ∷ ys) h = ground (arith, last_or-erase (some x) a (y ∷ ys))

pub length-erase : (a : ℕ) (xs : List ℕ) → has a xs ≡ true → suc (length (erase a xs)) ≡ length xs
length-erase a [] h = ground arith
length-erase a (x ∷ xs) h = ground (arith, length-erase a xs)

pub erase_absent : (a : ℕ) (xs : List ℕ) → has a xs ≡ false → erase a xs ≡ xs
erase_absent a [] h = refl
erase_absent a (x ∷ xs) h = ground (arith, erase_absent a xs)

-- The first address has no predecessor, and no other has none.
pub first_of_pred_or :
    (a : ℕ) (xs : List ℕ) → has a xs ≡ true → pred_or none a xs ≡ none → a ∷ erase a xs ≡ xs
first_of_pred_or a [] h e = ground arith
first_of_pred_or a (x ∷ xs) h e = ground (arith, is_some-pred_or x a xs)

pub succ_of_last :
    (t : ℕ) (p : Option ℕ) (xs : List ℕ) → Distinct xs → last_or p xs ≡ some t → succ_of t xs ≡ none
succ_of_last t p [] d e = refl
succ_of_last t p (x ∷ []) d e = ground arith
succ_of_last t p (x ∷ y ∷ ys) d e =
    ground (arith, has-last_or none (y ∷ ys) {t = t}, succ_of_last t (some x) (y ∷ ys) d.1)

-- An address with no neighbour is the only one.
pub alone_of_ends :
    (a : ℕ) (xs : List ℕ)
    → has a xs ≡ true
    → pred_or none a xs ≡ none
    → succ_of a xs ≡ none
    → length (erase a xs) ≡ 0
alone_of_ends a [] h e f = refl
alone_of_ends a (x ∷ []) h e f = ground arith
alone_of_ends a (x ∷ y ∷ ys) h e f = ground (arith, is_some-pred_or x a (y ∷ ys))
