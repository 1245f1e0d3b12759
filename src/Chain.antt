-- ===== src/Chain.antt =====
-- The order of a linked list as a list of addresses (indices or pointers), front to back: what
-- the links of the nodes stand for.
pub mod Erase
pub mod Ends
pub mod Promote
use test_thread_safe_lru_cac.Base.{
  ℕ, ◌≡◌, refl, Bool, true, false, ◌||◌, Option, none, some, List, [], ◌∷◌, ◌==◌, if◌then◌else◌,
  arith,
}

abbrev pub has : ℕ → List ℕ → Bool
has a [] = false
has a (x ∷ xs) = a == x || has a xs

abbrev pub Distinct : List ℕ → Type 0
Distinct [] = Unit
Distinct (x ∷ xs) = (has x xs ≡ false) × Distinct xs

-- The first address, or `d` if there is none.
abbrev pub first_or : Option ℕ → List ℕ → Option ℕ
first_or d [] = d
first_or d (x ∷ xs) = some x

-- The last address, or `d` if there is none.
abbrev pub last_or : Option ℕ → List ℕ → Option ℕ
last_or d [] = d
last_or d (x ∷ xs) = last_or (some x) xs

-- The address before `a`, where `p` comes before the list.
abbrev pub pred_or : Option ℕ → ℕ → List ℕ → Option ℕ
pred_or p a [] = none
pred_or p a (x ∷ xs) = if a == x then p else pred_or (some x) a xs

-- The address after `a`.
abbrev pub succ_of : ℕ → List ℕ → Option ℕ
succ_of a [] = none
succ_of a (x ∷ xs) = if a == x then first_or none xs else succ_of a xs

abbrev pub erase : ℕ → List ℕ → List ℕ
erase a [] = []
erase a (x ∷ xs) = if a == x then xs else x ∷ erase a xs

abbrev pub is_at : Option ℕ → ℕ → Bool
is_at none b = false
is_at (some x) b = x == b

-- A neighbour of an address stands in the list.
pub pred_or-ne :
    (p : Option ℕ) (a x : ℕ) (xs : List ℕ)
    → has x xs ≡ false
    → is_at p x ≡ false
    → is_at (pred_or p a xs) x ≡ false
pred_or-ne p a x [] h k = refl
pred_or-ne p a x (y ∷ ys) h k = ground (arith, pred_or-ne (some y) a x ys)

pub succ_of-ne : (a x : ℕ) (xs : List ℕ) → has x xs ≡ false → is_at (succ_of a xs) x ≡ false
succ_of-ne a x [] h = refl
succ_of-ne a x (y ∷ []) h = ground arith
succ_of-ne a x (y ∷ z ∷ zs) h = ground (arith, succ_of-ne a x (z ∷ zs))

pub has-erase :
    (a b : ℕ) (xs : List ℕ)
    → Distinct xs
    → has b (erase a xs) ≡ (if a == b then false else has b xs)
has-erase a b [] d = ground arith
has-erase a b (x ∷ xs) d = ground (arith, has-erase a b xs)

pub Distinct-erase : (a : ℕ) (xs : List ℕ) → Distinct xs → Distinct (erase a xs)
Distinct-erase a [] d = tt
Distinct-erase a (x ∷ xs) d = ground (arith, has-erase a x xs, Distinct-erase a xs)

pub has-pred_or : (a x : ℕ) (xs : List ℕ) → is_at (pred_or none a xs) x ≡ true → has x xs ≡ true
has-pred_or a x xs h = ground (arith, pred_or-ne none a x xs)

pub has-succ_of : (a x : ℕ) (xs : List ℕ) → is_at (succ_of a xs) x ≡ true → has x xs ≡ true
has-succ_of a x xs h = ground (arith, succ_of-ne a x xs)

pub has-first_or : (x : ℕ) (xs : List ℕ) → is_at (first_or none xs) x ≡ true → has x xs ≡ true
has-first_or x [] h = ground arith
has-first_or x (y ∷ ys) h = ground arith

last_or-ne :
    (p : Option ℕ) (x : ℕ) (xs : List ℕ)
    → has x xs ≡ false
    → is_at p x ≡ false
    → is_at (last_or p xs) x ≡ false
last_or-ne p x [] h k = k
last_or-ne p x (y ∷ ys) h k = ground (arith, last_or-ne (some y) x ys)

pub has-last_at : (x : ℕ) (xs : List ℕ) → is_at (last_or none xs) x ≡ true → has x xs ≡ true
has-last_at x xs h = ground (arith, last_or-ne none x xs)
