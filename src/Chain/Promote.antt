-- ===== src/Chain/Promote.antt =====
-- Deferred promotions: a buffer of addresses, each moved to the front in turn if it is still linked.
use test_thread_safe_lru_cac.Base.{
  ℕ, ◌≡◌, refl, false, List, [], ◌∷◌, ◌++◌, if◌then◌else◌, arith, length,
}
use test_thread_safe_lru_cac.Chain.{has, Distinct, erase, has-erase, Distinct-erase}
use test_thread_safe_lru_cac.Chain.Erase.{length-erase}

abbrev pub move_front : ℕ → List ℕ → List ℕ
move_front a xs = if has a xs then a ∷ erase a xs else xs

abbrev pub promote : List ℕ → List ℕ → List ℕ
promote [] xs = xs
promote (i ∷ is) xs = promote is (move_front i xs)

pub has-move_front : (a b : ℕ) (xs : List ℕ) → Distinct xs → has b (move_front a xs) ≡ has b xs
has-move_front a b xs d = ground (arith, has-erase a b xs)

pub Distinct-move_front : (a : ℕ) (xs : List ℕ) → Distinct xs → Distinct (move_front a xs)
Distinct-move_front a xs d = ground (arith, has-erase a a xs, Distinct-erase a xs)

pub length-move_front : (a : ℕ) (xs : List ℕ) → length (move_front a xs) ≡ length xs
length-move_front a xs = ground (arith, length-erase a xs)

pub has-promote :
    (is : List ℕ) (b : ℕ) (xs : List ℕ) → Distinct xs → has b (promote is xs) ≡ has b xs
has-promote [] b xs d = refl
has-promote (i ∷ is) b xs d =
    ground
      (arith, has-promote is b (move_front i xs), has-move_front i b xs, Distinct-move_front i xs)

pub Distinct-promote : (is xs : List ℕ) → Distinct xs → Distinct (promote is xs)
Distinct-promote [] xs d = d
Distinct-promote (i ∷ is) xs d = Distinct-promote is (move_front i xs) (Distinct-move_front i xs d)

pub length-promote : (is xs : List ℕ) → length (promote is xs) ≡ length xs
length-promote [] xs = refl
length-promote (i ∷ is) xs =
    ground (arith, length-promote is (move_front i xs), length-move_front i xs)

-- An access that is buffered last is the last promotion.
pub promote-append_last :
    (is : List ℕ) (a : ℕ) (xs : List ℕ) → promote (is ++ a ∷ []) xs ≡ move_front a (promote is xs)
promote-append_last [] a xs = refl
promote-append_last (i ∷ is) a xs = promote-append_last is a (move_front i xs)

erase_comm : (a b : ℕ) (xs : List ℕ) → Distinct xs → erase a (erase b xs) ≡ erase b (erase a xs)
erase_comm a b [] d = refl
erase_comm a b (x ∷ xs) d = ground (arith, erase_comm a b xs)

erase_absent : (a : ℕ) (xs : List ℕ) → has a xs ≡ false → erase a xs ≡ xs
erase_absent a [] h = refl
erase_absent a (x ∷ xs) h = ground (arith, erase_absent a xs)

erase-move_front :
    (a i : ℕ) (xs : List ℕ) → Distinct xs → move_front i (erase a xs) ≡ erase a (move_front i xs)
erase-move_front a i xs d =
    ground
      (arith, has-erase a i xs, has-erase i a xs, erase_comm a i xs, erase_absent a (erase i xs))

-- Promotions of what stays commute with the removal of an address.
pub promote-erase :
    (is : List ℕ) (a : ℕ) (xs : List ℕ)
    → Distinct xs
    → promote is (erase a xs) ≡ erase a (promote is xs)
promote-erase [] a xs d = refl
promote-erase (i ∷ is) a xs d =
    rw (erase-move_front a i xs d)
      (promote-erase is a (move_front i xs) (Distinct-move_front i xs d))
