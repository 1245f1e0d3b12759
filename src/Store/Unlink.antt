-- ===== src/Store/Unlink.antt =====
-- Taking an address out of a linked store.
use test_thread_safe_lru_cac.Base.{
  ℕ, ◌≡◌, true, Option, none, some, List, if◌then◌else◌, is_some, arith,
}
use test_thread_safe_lru_cac.Chain.{has, pred_or, succ_of, erase, has-erase, Distinct-erase}
use test_thread_safe_lru_cac.Chain.Erase.{
  succ_of-erase, pred_or-erase, first_or-erase, last_or-erase,
}
use test_thread_safe_lru_cac.Store.{Store, Linked, links_of, entry_of, joined}

module _ {K V : Type 0} (s : Store K V) where
  pub entry_of-joined : (p q : Option ℕ) (b : ℕ) → entry_of (joined p q s b) ≡ entry_of (s b)
  entry_of-joined p q b = ground arith

  joined-links :
      {h t : Option ℕ} {xs : List ℕ} (a b : ℕ)
      → Linked s h t xs
      → has b (erase a xs) ≡ true
      → links_of (joined (pred_or none a xs) (succ_of a xs) s b)
        ≡ some (pred_or none b (erase a xs), succ_of b (erase a xs))
  joined-links {xs} a b l e = ground (
    arith,
    has-erase a b xs l.distinct,
    l.linked b,
    pred_or-erase none a b xs l.distinct,
    succ_of-erase none a b xs l.distinct,
  )

  -- Joining the neighbours of an address leaves the chain without it.
  pub joined-Linked :
      {h t : Option ℕ} {xs : List ℕ} (a : ℕ)
      → Linked s h t xs
      → has a xs ≡ true
      → Linked
          (joined (pred_or none a xs) (succ_of a xs) s)
          (if is_some (pred_or none a xs) then h else succ_of a xs)
          (if is_some (succ_of a xs) then t else pred_or none a xs)
          (erase a xs)
  joined-Linked {xs} a l e = record {
    distinct = Distinct-erase a xs l.distinct;
    head_is = ground (arith, first_or-erase a xs, l.head_is);
    tail_is = ground (arith, last_or-erase none a xs, l.tail_is);
    linked = λ b m. joined-links a b l m;
  }
