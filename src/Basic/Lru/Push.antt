-- ===== src/Basic/Lru/Push.antt =====
-- The three parts of `push`: the removal of a present key, the eviction, and the new node.
use test_thread_safe_lru_cac.Base.{
  ℕ, suc, ◌+◌, ◌<◌, ◌≡◌, refl, sym, ◌∙◌, true, false, Option, none, some, List, ◌∷◌, ◌==◌, leb,
  if◌then◌else◌, is_some, arith, length, Option-cases, Bool-cases, inl, inr, ap, List-cases,
}
use test_thread_safe_lru_cac.Assoc
use test_thread_safe_lru_cac.Spec.{drop_last}
use test_thread_safe_lru_cac.Chain.{erase, last_or}
use test_thread_safe_lru_cac.Chain.Erase.{length-erase}
use test_thread_safe_lru_cac.Chain.Ends.{has-last_or, last_or-cons}
use test_thread_safe_lru_cac.Store.{Node, Store, entry_of}
use test_thread_safe_lru_cac.Store.Index.{Indexed-insert}
use test_thread_safe_lru_cac.Store.Entries.{entries_cong, entries-erase_last}
use test_thread_safe_lru_cac.Basic.Dll
use test_thread_safe_lru_cac.Basic.Dll.Methods.{
  push_front-IsValid, pop_back-IsValid, remove-IsValid,
}
use test_thread_safe_lru_cac.Basic.Lru.{Lru, decrement, take_present, evict, add}
use test_thread_safe_lru_cac.Basic.Lru.Map.{
  Resolves, Resolves-cong, map_get_lem, map_remove_lem, map_insert_lem,
}
use test_thread_safe_lru_cac.Basic.Lru.Refine.{
  IsCacheOf, lookup-Hit, lookup_miss, length-IsCacheOf, dropped-IsCacheOf,
}

module _ {K V : Type 0} (dec : Discrete K) (cap : ℕ) where
  -- A run that ends in a state for `l` and takes no box.
  abbrev pub Outcome : Lru K V → Option (Lru K V) → List (K × V) → Type 0
  Outcome c o l =
      (c' : Lru K V) × (o ≡ some c')
      × IsCacheOf dec cap c' l
      × ((b : ℕ) → c.dll.cells b ≡ none → c'.dll.cells b ≡ none)

  still_vacant :
      (s t : Store K V) (a : ℕ)
      → ((b : ℕ) → entry_of (t b) ≡ (if a == b then none else entry_of (s b)))
      → (b : ℕ) → s b ≡ none
      → t b ≡ none
  still_vacant s t a same b e = vacant (t b) (ground (arith, same b))
    where
      vacant : (o : Option (Node K V)) → entry_of o ≡ none → o ≡ none
      vacant none h = refl
      vacant (some n) h = absurd (ground arith)

  -- The removal of a present key drops its entry; an absent key changes nothing.
  pub take_present-IsCacheOf :
      {c : Lru K V} {l : List (K × V)} (k : K)
      → IsCacheOf dec cap c l
      → Outcome c (take_present dec c k) (Assoc.remove dec k l)
  unfolding take_present decrement
  take_present-IsCacheOf {c} {l} k r =
      rw (map_get_lem dec c.dll.cells k c.map r.index r.resolves)
        (elim (Option-cases (Assoc.get dec k r.index)) [
          | inl e ↦ (
            c,
            rw e refl,
            rw (Assoc.remove_absent dec k l (lookup_miss dec cap r k e)) r,
            λ b h. h,
          )
          | inr (a, e) ↦
              let h = lookup-Hit dec cap r k a e in
              let (m, e', res) = map_remove_lem dec c.dll.cells k c.map r.index r.resolves in
              let (d', e'', v, same) =
                remove-IsValid c.dll r.order r.chain a h.member k h.value h.entry in
              let n : suc (length (erase a r.order)) ≡ length r.order =
                length-erase a r.order h.member in
              (
                record c { dll = d'; map = m; size = length (erase a r.order) },
                rw (e, e', e'', r.size_is, ← n) refl,
                dropped-IsCacheOf dec cap r k a (length (erase a r.order)) h v same res refl
                    (omega (arith, r.bound)),
                still_vacant c.dll.cells d'.cells a same,
              )
        ])

  -- What the eviction leaves: room, and no key that was not there.
  pub record Roomy (c c' : Lru K V) (l l' : List (K × V)) : Type 0 where
    pub stands : IsCacheOf dec cap c' l'
    pub vacant : (b : ℕ) → c.dll.cells b ≡ none → c'.dll.cells b ≡ none
    pub room : c'.size < cap
    pub absent : (k : K) → Assoc.get dec k l ≡ none → Assoc.get dec k l' ≡ none

  peek_back_ref_lem :
      (d : Dll.Dll K V) (t : ℕ) (n : Node K V)
      → d.tail ≡ some t
      → d.cells t ≡ some n
      → Dll.peek_back_ref d ≡ some (some n.key)
  unfolding Dll.peek_back_ref
  peek_back_ref_lem d t n e o = rw (e, Dll.peek_back_ref, o)

  evict_full :
      {c : Lru K V} {l : List (K × V)} (r : IsCacheOf dec cap c l) (t : ℕ) (n : Node K V)
      → leb c.cap c.size ≡ true
      → last_or none r.order ≡ some t
      → c.dll.cells t ≡ some n
      → (c' : Lru K V) × (evict dec c ≡ some c') × Roomy c c' l (drop_last l)
  unfolding evict decrement
  evict_full {c} {l} r t n full last o =
      let h = lookup-Hit dec cap r n.key t (r.indexed.complete n.key t (ground arith)) in
      let (m, e', res) = map_remove_lem dec c.dll.cells n.key c.map r.index r.resolves in
      let (d', e'', v, same) =
        pop_back-IsValid c.dll r.order r.chain t h.member n.key h.value last h.entry in
      let fewer : suc (length (erase t r.order)) ≡ length r.order =
        length-erase t r.order h.member in
      let same_list : Assoc.remove dec n.key l ≡ drop_last l =
        sym h.taken
        ∙ entries-erase_last c.dll.cells r.order t r.chain.linked.distinct
            (λ b m. r.chain.live b ∙ m) last
        ∙ ap drop_last r.holds in
      let r' =
        dropped-IsCacheOf dec cap r n.key t (length (erase t r.order)) h v same res refl
          (omega (arith, r.bound)) in
      (
        record c { dll = d'; map = m; size = length (erase t r.order) },
        rw
            (
              full,
              peek_back_ref_lem c.dll t n (r.chain.linked.tail_is ∙ last) o,
              e',
              e'',
              r.size_is,
              ← fewer,
            )
            refl,
        record {
          stands = rw same_list at r';
          vacant = still_vacant c.dll.cells d'.cells t same;
          room = omega (arith, r.bound);
          absent = λ k e. rw (← same_list) (absent h.found k e);
        },
      )
    where
      absent :
          {w : V}
          → Assoc.get dec n.key l ≡ some w
          → (k : K) → Assoc.get dec k l ≡ none
          → Assoc.get dec k (Assoc.remove dec n.key l) ≡ none
      absent f k e = elim (dec k n.key) [
        | yes p ↦ absurd (ground arith)
        | no p ↦ Assoc.get-remove_ne dec n.key k l p ∙ e
      ]

  full_iff :
      {c : Lru K V} {l : List (K × V)}
      → IsCacheOf dec cap c l
      → leb c.cap c.size ≡ leb cap (length l)
  full_iff {c} {l} r = rw (r.cap_is, r.size_is, length-IsCacheOf dec cap r)

  -- The eviction drops the last entry of a full cache, and leaves room.
  pub evict-Roomy :
      {c : Lru K V} {l : List (K × V)}
      → IsCacheOf dec cap c l
      → (c' : Lru K V) × (evict dec c ≡ some c')
        × Roomy c c' l (if leb cap (length l) then drop_last l else l)
  evict-Roomy {c} {l} r = elim (Bool-cases (leb cap (length l))) [
    | inl full ↦ rw full (elim (List-cases r.order) [
      | inl e ↦ absurd (ground (arith, r.positive, ap length e, length-IsCacheOf dec cap r))
      | inr (x, rest, e) ↦
          let (t, last') = last_or-cons x rest in
          let last : last_or none r.order ≡ some t = rw e last' in
          let live : is_some (c.dll.cells t) ≡ true =
            r.chain.live t ∙ has-last_or none r.order last refl in
          elim (Option-cases (c.dll.cells t)) [
            | inl o ↦ absurd (ground arith)
            | inr (n, o) ↦ evict_full r t n (full_iff r ∙ full) last o
          ]
    ])
    | inr free ↦ rw free (
      c,
      skips (full_iff r ∙ free),
      record { stands = r; vacant = λ b e. e; room = roomy free; absent = λ k e. e },
    )
  ]
    where
      skips : leb c.cap c.size ≡ false → evict dec c ≡ some c
      skips e = unfold evict in rw e refl

      roomy : leb cap (length l) ≡ false → c.size < cap
      roomy e = ground (arith, r.size_is, length-IsCacheOf dec cap r)

  -- The new node becomes the first entry.
  pub add-IsCacheOf :
      {c : Lru K V} {l : List (K × V)} (fresh : ℕ) (k : K) (v : V)
      → IsCacheOf dec cap c l
      → c.dll.cells fresh ≡ none
      → c.size < cap
      → Assoc.get dec k l ≡ none
      → (c' : Lru K V) × (add dec fresh c k v ≡ some c') × IsCacheOf dec cap c' ((k, v) ∷ l)
  unfolding add
  add-IsCacheOf {c} {l} fresh k v r vacant room new =
      let (d', e, valid, same) = push_front-IsValid c.dll fresh k v r.order r.chain vacant in
      let absent : Assoc.get dec k r.index ≡ none = index_absent in
      let res : Resolves d'.cells c.map r.index =
        Resolves-cong dec c.dll.cells d'.cells c.map r.index (λ b j g h. ground (arith, same b))
          r.resolves in
      let (m, e', res') =
        map_insert_lem dec d'.cells (record { key_ref = fresh }) fresh k c.map r.index res refl
          (ground (arith, same fresh)) absent in
      (
        record c { dll = d'; map = m; size = c.size + 1 },
        rw (e, e') refl,
        record {
          order = fresh ∷ r.order;
          index = Assoc.insert dec k fresh r.index;
          chain = valid;
          indexed =
              Indexed-insert dec r.index c.dll.cells d'.cells fresh k (λ b. ground (arith, same b))
                vacant absent r.indexed;
          resolves = res';
          holds = ground (
            arith,
            same fresh,
            entries_cong c.dll.cells d'.cells r.order
                (λ b h. ground (arith, same b, r.chain.live b)),
            r.holds,
          );
          size_is = omega (arith, r.size_is);
          bound = omega (arith, r.size_is);
          cap_is = r.cap_is;
          positive = r.positive;
        },
      )
    where
      index_absent : Assoc.get dec k r.index ≡ none
      index_absent = elim (Option-cases (Assoc.get dec k r.index)) [
        | inl e ↦ e
        | inr (a, e) ↦ let h = lookup-Hit dec cap r k a e in absurd (ground (arith, h.found))
      ]
