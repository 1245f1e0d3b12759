-- ===== src/Store/Ends.antt =====
-- Putting a node that is not linked before the head or behind the tail.
use test_thread_safe_lru_cac.Base.{
  ℕ, ◌≡◌, refl, true, false, Option, none, some, List, [], ◌∷◌, ◌++◌, if◌then◌else◌, is_some, arith,
}
use test_thread_safe_lru_cac.Chain.{has, first_or, last_or, pred_or, succ_of}
use test_thread_safe_lru_cac.Chain.Ends.{
  pred_or_start, last_or_start, has-append_last, Distinct-append_last, first_or-append_last,
  last_or-append_last, pred_or-append_last, succ_of-append_last, succ_of-append_last_self,
  is_some-last_or,
}
use test_thread_safe_lru_cac.Store.{Store, Linked, links_of, entry_of, fronted, backed}

module _ {K V : Type 0} (s : Store K V) (a : ℕ) where
  pub entry_of-fronted : (h : Option ℕ) (b : ℕ) → entry_of (fronted a h s b) ≡ entry_of (s b)
  entry_of-fronted h b = ground arith

  pub entry_of-backed : (t : Option ℕ) (b : ℕ) → entry_of (backed a t s b) ≡ entry_of (s b)
  entry_of-backed t b = ground arith

module _ {K V : Type 0} {s : Store K V} {h t : Option ℕ} {xs : List ℕ} (a : ℕ) (l : Linked s h t xs)
    (new : has a xs ≡ false) (held : is_some (s a) ≡ true) where
  fronted-links :
      (b : ℕ)
      → has b (a ∷ xs) ≡ true
      → links_of (fronted a (first_or none xs) s b)
        ≡ some (pred_or none b (a ∷ xs), succ_of b (a ∷ xs))
  fronted-links b e = ground (arith, l.linked b, pred_or_start (some a) b xs)

  -- The chain grows at its front.
  pub fronted-Linked : Linked (fronted a h s) (some a) (if is_some h then t else some a) (a ∷ xs)
  fronted-Linked = record {
    distinct = (new, l.distinct);
    head_is = refl;
    tail_is = ground (arith, last_or_start (some a) xs, l.head_is, l.tail_is);
    linked = λ b m. rw l.head_is (fronted-links b m);
  }

  backed-links :
      (b : ℕ)
      → has b (xs ++ a ∷ []) ≡ true
      → links_of (backed a (last_or none xs) s b)
        ≡ some (pred_or none b (xs ++ a ∷ []), succ_of b (xs ++ a ∷ []))
  backed-links b e = ground (
    arith,
    has-append_last a b xs,
    l.linked b,
    pred_or-append_last none a b xs,
    succ_of-append_last a b xs new l.distinct,
    succ_of-append_last_self a xs,
  )

  -- The chain grows at its back.
  pub backed-Linked :
      Linked (backed a t s) (if is_some t then h else some a) (some a) (xs ++ a ∷ [])
  backed-Linked = record {
    distinct = Distinct-append_last a xs new l.distinct;
    head_is =
        ground (arith, first_or-append_last a xs, is_some-last_or none xs, l.head_is, l.tail_is);
    tail_is = ground (arith, last_or-append_last none a xs);
    linked = λ b m. rw l.tail_is (backed-links b m);
  }
