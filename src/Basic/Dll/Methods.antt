-- ===== src/Basic/Dll/Methods.antt =====
-- The methods of the doubly linked list on a chain: no fault, which chain results, and that a box
-- is live exactly as long as it is linked.
use test_thread_safe_lru_cac.Base.{
  ℕ, suc, ◌+◌, ◌≡◌, refl, sym, ◌∙◌, true, false, Option, none, some, List, ◌∷◌, ◌==◌, if◌then◌else◌,
  is_some, arith, length, Option-cases, inl, inr, ==_refl,
}
use test_thread_safe_lru_cac.Chain.{
  has, erase, pred_or, succ_of, first_or, last_or, is_at, has-pred_or, has-succ_of, has-first_or,
  has-erase,
}
use test_thread_safe_lru_cac.Chain.Erase.{
  length-erase, first_of_pred_or, succ_of_last, alone_of_ends,
}
use test_thread_safe_lru_cac.Store.{Store, Linked, Linked-cong, entry_of, joined, fronted}
use test_thread_safe_lru_cac.Store.Unlink.{joined-Linked, entry_of-joined}
use test_thread_safe_lru_cac.Store.Ends.{fronted-Linked, entry_of-fronted}
use test_thread_safe_lru_cac.Basic.Dll.{
  Dll, put, new_node, push_front, pop_back, move_to_front, remove, cut, shrink,
}
use test_thread_safe_lru_cac.Basic.Dll.Links.{
  LiveAt, unlink_inner_lem, cut_lem, cut_tail_lem, relink_front_lem, link_front_lem,
}

module _ {K V : Type 0} where
  pub record IsValid (d : Dll K V) (xs : List ℕ) : Type 0 where
    pub linked : Linked d.cells d.head d.tail xs
    pub live : (a : ℕ) → is_some (d.cells a) ≡ has a xs
    pub size_is : d.size ≡ length xs

  LiveAt-chain :
      (d : Dll K V) (xs : List ℕ) (p : Option ℕ)
      → IsValid d xs
      → ((x : ℕ) → is_at p x ≡ true → has x xs ≡ true)
      → LiveAt d.cells p
  LiveAt-chain d xs none v h = tt
  LiveAt-chain d xs (some x) v h = v.live x ∙ h x (==_refl x)

  is_some-joined :
      (s : Store K V) (p q : Option ℕ) (b : ℕ) → is_some (joined p q s b) ≡ is_some (s b)
  is_some-joined s p q b = ground arith

  is_some-fronted :
      (s : Store K V) (a : ℕ) (h : Option ℕ) (b : ℕ) → is_some (fronted a h s b) ≡ is_some (s b)
  is_some-fronted s a h b = ground arith

  -- A new box written.
  abbrev boxed : Dll K V → ℕ → K → V → Store K V
  boxed d a k v = put d.cells a (some (new_node k v))

  -- The list after `push_front`.
  abbrev pushed : Dll K V → ℕ → K → V → Dll K V
  pushed d a k v = record {
    cells = fronted a d.head (boxed d a k v);
    head = some a;
    tail = if is_some d.head then d.tail else some a;
    size = d.size + 1;
  }

  -- On a valid list, push_front at an unused address runs without a fault, leaves a valid list with
  -- the new node in front, and keeps all other entries.
  pub push_front-IsValid :
      (d : Dll K V) (a : ℕ) (k : K) (v : V) (xs : List ℕ)
      → IsValid d xs
      → d.cells a ≡ none
      → (d' : Dll K V) × (push_front a d k v ≡ some (d', a))
        × IsValid d' (a ∷ xs)
        × ((b : ℕ) → entry_of (d'.cells b) ≡ (if a == b then some (k, v) else entry_of (d.cells b)))
  unfolding push_front
  push_front-IsValid d a k v xs w vacant = (
    pushed d a k v,
    rw
        (link_front_lem (record d { cells = boxed d a k v }) a k v d.head (ground arith) live_head
          (rw w.linked.head_is not_head))
        refl,
    record {
      linked =
          fronted-Linked a
            (Linked-cong d.cells (boxed d a k v) (λ b m. ground (arith, w.live b)) w.linked) new
            (ground arith);
      live = λ b. is_some-fronted (boxed d a k v) a d.head b ∙ ground (arith, w.live b);
      size_is = omega (arith, w.size_is);
    },
    λ b. entry_of-fronted (boxed d a k v) a d.head b ∙ ground arith,
  )
    where
      new : has a xs ≡ false
      new = ground (arith, w.live a)

      not_head : is_at (first_or none xs) a ≡ false
      not_head = ground (arith, new, has-first_or a xs)

      boxed_live : (h : Option ℕ) → LiveAt d.cells h → LiveAt (boxed d a k v) h
      boxed_live none l = tt
      boxed_live (some x) l = ground arith

      live_head : LiveAt (boxed d a k v) d.head
      live_head =
          boxed_live d.head
            (LiveAt-chain d xs d.head w (rw w.linked.head_is (λ x. has-first_or x xs)))

  module _ (d : Dll K V) (xs : List ℕ) (v : IsValid d xs) (a : ℕ) (m : has a xs ≡ true) where
    abbrev p : Option ℕ
    p = pred_or none a xs

    abbrev q : Option ℕ
    q = succ_of a xs

    live_p : LiveAt d.cells p
    live_p = LiveAt-chain d xs p v (λ x. has-pred_or a x xs)

    live_q : LiveAt d.cells q
    live_q = LiveAt-chain d xs q v (λ x. has-succ_of a x xs)

    -- The list without the node at `a`, its box given back.
    abbrev removed : Dll K V
    removed = record {
      cells = put (joined p q d.cells) a none;
      head = if is_some p then d.head else q;
      tail = if is_some q then d.tail else p;
      size = length (erase a xs);
    }

    removed-IsValid : IsValid removed (erase a xs)
    removed-IsValid = record {
      linked =
          Linked-cong (joined p q d.cells) removed.cells
            (λ b e. ground (arith, has-erase a b xs v.linked.distinct))
            (joined-Linked d.cells a v.linked m);
      live = λ b.
          ground
            (arith, is_some-joined d.cells p q b, v.live b, has-erase a b xs v.linked.distinct);
      size_is = refl;
    }

    removed-entries :
        (b : ℕ) → entry_of (removed.cells b) ≡ (if a == b then none else entry_of (d.cells b))
    removed-entries b = ground (arith, entry_of-joined d.cells p q b)

    size_suc : d.size ≡ suc (length (erase a xs))
    size_suc = v.size_is ∙ sym (length-erase a xs m)

    cut_removed :
        cut d p q
        ≡ some (record d {
          cells = joined p q d.cells;
          head = if is_some p then d.head else q;
          tail = if is_some q then d.tail else p;
          size = length (erase a xs);
        })
    cut_removed = cut_lem d p q (length (erase a xs)) live_p live_q size_suc (alone_of_ends a xs m)

    -- On a valid list, remove of a linked node runs without a fault, returns its key and value,
    -- leaves a valid list without it, gives exactly its box back and keeps all other entries.
    pub remove-IsValid :
        (k : K) (w : V)
        → entry_of (d.cells a) ≡ some (k, w)
        → (d' : Dll K V) × (remove d a ≡ some (d', (k, w)))
          × IsValid d' (erase a xs)
          × ((b : ℕ) → entry_of (d'.cells b) ≡ (if a == b then none else entry_of (d.cells b)))
    unfolding remove
    remove-IsValid k w e = (removed, runs, removed-IsValid, removed-entries)
      where
        runs : remove d a ≡ some (removed, (k, w))
        runs = elim (Option-cases (d.cells a)) [
          | inl o ↦ absurd (ground arith)
          | inr (n, o) ↦ ground (arith, cut_removed, size_suc, v.linked.linked a)
        ]

    -- On a valid list, pop_back where there is a last node runs without a fault, returns its key
    -- and value, leaves a valid list without it, and gives exactly its box back.
    pub pop_back-IsValid :
        (k : K) (w : V)
        → last_or none xs ≡ some a
        → entry_of (d.cells a) ≡ some (k, w)
        → (d' : Dll K V) × (pop_back d ≡ some (d', some (k, w)))
          × IsValid d' (erase a xs)
          × ((b : ℕ) → entry_of (d'.cells b) ≡ (if a == b then none else entry_of (d.cells b)))
    unfolding pop_back shrink
    pop_back-IsValid k w last e = (removed, runs, removed-IsValid, removed-entries)
      where
        end : q ≡ none
        end = succ_of_last a none xs v.linked.distinct last

        runs : pop_back d ≡ some (removed, some (k, w))
        runs = elim (Option-cases (d.cells a)) [
          | inl o ↦ absurd (ground arith)
          | inr (n, o) ↦
              ground
                (arith, end, cut_tail_lem d p live_p, size_suc, v.linked.linked a, v.linked.tail_is)
        ]

    -- The list with the node at `a` out of its place and not yet at the front.
    abbrev unlinked : Dll K V
    unlinked = record d { cells = joined p q d.cells; tail = if is_some q then d.tail else p }

    unlinked-Linked : is_some p ≡ true → Linked unlinked.cells d.head unlinked.tail (erase a xs)
    unlinked-Linked e = rw (head_kept) at (joined-Linked d.cells a v.linked m)
      where
        head_kept : (if is_some p then d.head else q) ≡ d.head
        head_kept = ground arith

    new : has a (erase a xs) ≡ false
    new = ground (arith, has-erase a a xs v.linked.distinct)

    abbrev moved : ℕ → Dll K V
    moved h = record unlinked { cells = fronted a (some h) unlinked.cells; head = some a }

    moved_head : (h : ℕ) → is_some p ≡ true → d.head ≡ some h → (h == a) ≡ false
    moved_head h e f = ground (arith, new, (unlinked-Linked e).head_is, has-first_or a (erase a xs))

    moved-IsValid :
        (h : ℕ) → is_some p ≡ true → d.head ≡ some h → IsValid (moved h) (a ∷ erase a xs)
    moved-IsValid h e f = record {
      linked =
          rw f at (
            fronted-Linked a (unlinked-Linked e) new (is_some-joined d.cells p q a ∙ v.live a ∙ m));
      live = λ b.
          is_some-fronted unlinked.cells a (some h) b
          ∙ is_some-joined d.cells p q b
          ∙ v.live b
          ∙ ground (arith, has-erase a b xs v.linked.distinct);
      size_is = v.size_is ∙ sym (length-erase a xs m);
    }

    has_head : (h : Option ℕ) → d.head ≡ h → (x : ℕ) × (d.head ≡ some x)
    has_head none e = absurd (ground (arith, v.linked.head_is))
    has_head (some x) e = (x, e)

    move_runs : (y h : ℕ) → p ≡ some y → d.head ≡ some h → move_to_front d a ≡ some (moved h)
    unfolding move_to_front
    move_runs y h e f = elim (Option-cases (d.cells a)) [
      | inl o ↦ absurd (ground (arith, v.live a))
      | inr (n, o) ↦ ground (
        arith,
        v.linked.linked a,
        v.live h,
        has-first_or h xs,
        v.linked.head_is,
        live_p,
        live_q,
        moved_head h,
        is_some-joined d.cells p q a,
        is_some-joined d.cells p q h,
        unlink_inner_lem d y q,
        relink_front_lem unlinked a h,
      )
    ]

    -- On a valid list, move_to_front of a linked node runs without a fault, leaves a valid list
    -- with it in front and the rest in order, and keeps all entries.
    pub move_to_front-IsValid :
        (d' : Dll K V) × (move_to_front d a ≡ some d')
        × IsValid d' (a ∷ erase a xs)
        × ((b : ℕ) → entry_of (d'.cells b) ≡ entry_of (d.cells b))
    unfolding move_to_front
    move_to_front-IsValid =
        let (h, f) = has_head d.head refl in
        elim (Option-cases p) [
          | inl e ↦ (d, stays h e f, rw (first_of_pred_or a xs m e) v, λ b. refl)
          | inr (y, e) ↦ (
            moved h,
            move_runs y h e f,
            moved-IsValid h (rw e) f,
            λ b. entry_of-fronted unlinked.cells a (some h) b ∙ entry_of-joined d.cells p q b,
          )
        ]
      where
        stays : (h : ℕ) → p ≡ none → d.head ≡ some h → move_to_front d a ≡ some d
        stays h e f = elim (Option-cases (d.cells a)) [
          | inl o ↦ absurd (ground (arith, v.live a))
          | inr (n, o) ↦ ground (arith, v.linked.linked a)
        ]
