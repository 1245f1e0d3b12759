-- ===== src/Basic/Dll/Links.antt =====
-- The pointer writes of the doubly linked list: no fault on live boxes, and which links they join.
use mathlib.Core.Path.{fun_ext}
use test_thread_safe_lru_cac.Base.{
  ℕ, suc, ◌≡◌, refl, ◌∙◌, true, false, Option, none, some, ◌==◌, if◌then◌else◌, is_some, arith,
  ◌>>=◌, Option-cases, inl, inr, ap,
}
use test_thread_safe_lru_cac.Chain.{is_at}
use test_thread_safe_lru_cac.Store.{Store, with_prev, with_next, joined, fronted}
use test_thread_safe_lru_cac.Basic.Dll.{
  Dll, new_node, set_next, set_prev, shrink, unlink_inner, cut, cut_tail, link_front, relink_front,
}

module _ {K V : Type 0} where
  abbrev next_at : ℕ → Option ℕ → Store K V → Store K V
  next_at p q s b = if p == b then with_next q (s b) else s b

  abbrev prev_at : ℕ → Option ℕ → Store K V → Store K V
  prev_at p q s b = if p == b then with_prev q (s b) else s b

  -- The pointer, if there is one, leads to a live box.
  abbrev pub LiveAt : Store K V → Option ℕ → Type 0
  LiveAt s none = Unit
  LiveAt s (some p) = is_some (s p) ≡ true

  set_next_lem :
      (d : Dll K V) (p : ℕ) (q : Option ℕ)
      → is_some (d.cells p) ≡ true
      → set_next d p q ≡ some (record d { cells = next_at p q d.cells })
  unfolding set_next
  set_next_lem d p q live = elim (Option-cases (d.cells p)) [
    | inl o ↦ absurd (ground arith)
    | inr (n, o) ↦
        rw (o, set_next) (ap (λ s. some (record d { cells = s })) (fun_ext λ b. ground arith))
  ]

  set_prev_lem :
      (d : Dll K V) (p : ℕ) (q : Option ℕ)
      → is_some (d.cells p) ≡ true
      → set_prev d p q ≡ some (record d { cells = prev_at p q d.cells })
  unfolding set_prev
  set_prev_lem d p q live = elim (Option-cases (d.cells p)) [
    | inl o ↦ absurd (ground arith)
    | inr (n, o) ↦
        rw (o, set_prev) (ap (λ s. some (record d { cells = s })) (fun_ext λ b. ground arith))
  ]

  is_some-next_at :
      (p : ℕ) (q : Option ℕ) (s : Store K V) (b : ℕ) → is_some (next_at p q s b) ≡ is_some (s b)
  is_some-next_at p q s b = ground arith

  is_some-prev_at :
      (p : ℕ) (q : Option ℕ) (s : Store K V) (b : ℕ) → is_some (prev_at p q s b) ≡ is_some (s b)
  is_some-prev_at p q s b = ground arith

  pub unlink_inner_lem :
      (d : Dll K V) (p : ℕ) (q : Option ℕ)
      → is_some (d.cells p) ≡ true
      → LiveAt d.cells q
      → unlink_inner d p q
        ≡ some (record d {
          cells = joined (some p) q d.cells;
          tail = if is_some q then d.tail else some p;
        })
  unfolding unlink_inner
  unlink_inner_lem d p none lp lq = rw (set_next_lem d p none lp)
  unlink_inner_lem d p (some x) lp lq = rw (
    set_next_lem d p (some x) lp,
    set_prev_lem (record d { cells = next_at p (some x) d.cells }) x (some p)
        (is_some-next_at p (some x) d.cells x ∙ lq),
  )

  pub cut_lem :
      (d : Dll K V) (p q : Option ℕ) (n : ℕ)
      → LiveAt d.cells p
      → LiveAt d.cells q
      → d.size ≡ suc n
      → (p ≡ none → q ≡ none → n ≡ 0)
      → cut d p q
        ≡ some (record d {
          cells = joined p q d.cells;
          head = if is_some p then d.head else q;
          tail = if is_some q then d.tail else p;
          size = n;
        })
  unfolding cut shrink
  cut_lem d none none n lp lq e z = ground (arith, z refl refl)
  cut_lem d none (some x) n lp lq e z = rw (set_prev_lem d x none lq) (ground arith)
  cut_lem d (some y) none n lp lq e z = rw (set_next_lem d y none lp) (ground arith)
  cut_lem d (some y) (some x) n lp lq e z =
      rw
        (
          set_next_lem d y (some x) lp,
          set_prev_lem (record d { cells = next_at y (some x) d.cells }) x (some y)
              (is_some-next_at y (some x) d.cells x ∙ lq),
        )
        (ground arith)

  pub cut_tail_lem :
      (d : Dll K V) (p : Option ℕ)
      → LiveAt d.cells p
      → cut_tail d p
        ≡ some (record d {
          cells = joined p none d.cells;
          head = if is_some p then d.head else none;
          tail = p;
        })
  unfolding cut_tail
  cut_tail_lem d none lp = refl
  cut_tail_lem d (some x) lp = rw (set_next_lem d x none lp)

  -- The last four writes of `move_to_front`.
  pub relink_front_lem :
      (d : Dll K V) (a h : ℕ)
      → is_some (d.cells a) ≡ true
      → is_some (d.cells h) ≡ true
      → (h == a) ≡ false
      → (set_prev d a none >>= λ d'. relink_front d' a (some h))
        ≡ some (record d { cells = fronted a (some h) d.cells; head = some a })
  unfolding relink_front
  relink_front_lem d a h la lh ne =
      let s = prev_at a none d.cells in
      rw
        (
          set_prev_lem d a none la,
          set_prev_lem (record d { cells = s }) h (some a) (is_some-prev_at a none d.cells h ∙ lh),
          set_next_lem (record d { cells = prev_at h (some a) s }) a (some h)
              (is_some-prev_at h (some a) s a ∙ is_some-prev_at a none d.cells a ∙ la),
        )
        (ap (λ s. some (record d { cells = s; head = some a })) (fun_ext λ b. ground arith))

  pub link_front_lem :
      (d : Dll K V) (a : ℕ) (k : K) (v : V) (h : Option ℕ)
      → d.cells a ≡ some (new_node k v)
      → LiveAt d.cells h
      → is_at h a ≡ false
      → link_front d a h
        ≡ some (record d {
          cells = fronted a h d.cells;
          head = some a;
          tail = if is_some h then d.tail else some a;
        })
  unfolding link_front
  link_front_lem d a k v none e lh ne =
      ap (λ s. some (record d { cells = s; head = some a; tail = some a }))
        (fun_ext λ b. ground arith)
  link_front_lem d a k v (some h) e lh ne =
      rw
        (
          set_prev_lem d h (some a) lh,
          set_next_lem (record d { cells = prev_at h (some a) d.cells }) a (some h)
              (is_some-prev_at h (some a) d.cells a ∙ ground arith),
        )
        (ap (λ s. some (record d { cells = s; head = some a })) (fun_ext λ b. ground arith))
