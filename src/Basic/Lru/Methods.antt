-- ===== src/Basic/Lru/Methods.antt =====
-- The methods of the `Lru` of src/basic/lru.rs, from a state that stands for the entries `l`, do what
-- the specification says of `l`, without a fault.
use test_thread_safe_lru_cac.Base.{
  ℕ, ◌≤◌, ◌<◌, ◌≡◌, refl, sym, ◌∙◌, Option, none, some, List, [], ◌∷◌, ◌==◌, leb, if◌then◌else◌,
  ◌>>=◌, arith, length, Option-cases, inl, inr, ap,
}
use test_thread_safe_lru_cac.Assoc
use test_thread_safe_lru_cac.Spec.{
  drop_last, lru_push, lru_push_hit, lru_push_miss, lru_get, lru_get_hit, lru_get_miss,
}
use test_thread_safe_lru_cac.Chain.{erase}
use test_thread_safe_lru_cac.Chain.Erase.{length-erase}
use test_thread_safe_lru_cac.Store.{entry_of}
use test_thread_safe_lru_cac.Store.Index.{Indexed-cong, key_of-entry_of, Unique-entries}
use test_thread_safe_lru_cac.Store.Entries.{entries_cong}
use test_thread_safe_lru_cac.Basic.Dll
use test_thread_safe_lru_cac.Basic.Dll.Methods.{move_to_front-IsValid}
use test_thread_safe_lru_cac.Basic.Lru.{Lru, new, size, is_empty, get, push}
use test_thread_safe_lru_cac.Basic.Lru.Map.{Resolves-cong, map_get_lem}
use test_thread_safe_lru_cac.Basic.Lru.Refine.{IsCacheOf, lookup-Hit, lookup_miss, length-IsCacheOf}
use test_thread_safe_lru_cac.Basic.Lru.Push.{take_present-IsCacheOf, evict-Roomy, add-IsCacheOf}

module _ {K V : Type 0} (dec : Discrete K) (cap : ℕ) where
  -- A new cache of positive capacity is empty.
  pub new-IsCacheOf : 0 < cap → (c : Lru K V) × (new cap ≡ some c) × IsCacheOf dec cap c []
  unfolding new Dll.new
  new-IsCacheOf h = (
    record { dll = Dll.new; map = []; size = 0; cap = cap },
    ground arith,
    record {
      order = [];
      index = [];
      chain = record {
        linked = record {
          distinct = tt;
          head_is = refl;
          tail_is = refl;
          linked = λ a m. ground arith;
        };
        live = λ a. refl;
        size_is = refl;
      };
      indexed = record {
        unique = tt;
        sound = λ k a e. ground arith;
        complete = λ k a e. ground arith;
      };
      resolves = tt;
      holds = refl;
      size_is = refl;
      bound = omega arith;
      cap_is = refl;
      positive = h;
    },
  )

  pub Unique-IsCacheOf :
      {c : Lru K V} {l : List (K × V)} → IsCacheOf dec cap c l → Assoc.Unique dec l
  Unique-IsCacheOf {c} r =
      rw (← r.holds)
        (Unique-entries dec r.index c.dll.cells r.order r.indexed r.chain.linked.distinct)

  lru_push_parts :
      {c : Lru K V} {l : List (K × V)} (k : K) (v : V)
      → IsCacheOf dec cap c l
      → lru_push dec cap k v l
        ≡ (k, v)
          ∷ (if leb cap (length (Assoc.remove dec k l))
              then drop_last (Assoc.remove dec k l)
              else Assoc.remove dec k l)
  lru_push_parts {c} {l} k v r = elim (Option-cases (Assoc.get dec k l)) [
    | inl e ↦ rw (Assoc.remove_absent dec k l e, lru_push_miss dec cap k v l e)
    | inr (w, e) ↦
        lru_push_hit dec cap k v l e
        ∙ ap (◌∷◌ (k, v))
            (ground (arith, Assoc.length-remove dec k l, length-IsCacheOf dec cap r, r.bound))
  ]

  -- From a cache that stands for a list of entries, push of the pointer-based LRU uses no dangling
  -- key reference or box, does not panic, and does what the LRU specification says, for every
  -- unused address of the new box.
  pub push-IsCacheOf :
      {c : Lru K V} {l : List (K × V)} (fresh : ℕ) (k : K) (v : V)
      → IsCacheOf dec cap c l
      → c.dll.cells fresh ≡ none
      → (c' : Lru K V) × (push dec fresh c k v ≡ some c')
        × IsCacheOf dec cap c' (lru_push dec cap k v l)
  unfolding push
  push-IsCacheOf {c} {l} fresh k v r vacant =
      let (c1, e1, r1, v1) = take_present-IsCacheOf dec cap k r in
      let (c2, e2, r2) = evict-Roomy dec cap r1 in
      let gone = r2.absent k (Assoc.get-remove_self dec k l (Unique-IsCacheOf r)) in
      let (c3, e3, r3) =
        add-IsCacheOf dec cap fresh k v r2.stands (r2.vacant fresh (v1 fresh vacant)) r2.room
          gone in
      (c3, rw (e1, e2, e3) refl, rw (lru_push_parts k v r) r3)

  get_hit :
      {c : Lru K V} {l : List (K × V)} (r : IsCacheOf dec cap c l) (k : K) (a : ℕ)
      → Assoc.get dec k r.index ≡ some a
      → (c' : Lru K V) × (get dec c k ≡ some (c', Assoc.get dec k l))
        × IsCacheOf dec cap c' (lru_get dec k l)
  unfolding get
  get_hit {c} {l} r k a e =
      let h = lookup-Hit dec cap r k a e in
      let (d', e', v, same) = move_to_front-IsValid c.dll r.order r.chain a h.member in
      (
        record c { dll = d' },
        rw (map_get_lem dec c.dll.cells k c.map r.index r.resolves, e, e', h.found)
            (reads d' h.value (same a ∙ h.entry)),
        rw (lru_get_hit dec k l h.found) (record {
          order = a ∷ erase a r.order;
          index = r.index;
          chain = v;
          indexed = Indexed-cong c.dll.cells d'.cells same r.indexed;
          resolves =
              Resolves-cong dec c.dll.cells d'.cells c.map r.index
                (λ b j g f. key_of-entry_of (d'.cells b) (c.dll.cells b) (same b) ∙ f) r.resolves;
          holds = ground (
            arith,
            same a,
            h.entry,
            h.taken,
            entries_cong c.dll.cells d'.cells (erase a r.order) (λ b m. same b),
          );
          size_is = r.size_is ∙ sym (length-erase a r.order h.member);
          bound = omega (arith, r.bound, length-erase a r.order h.member);
          cap_is = r.cap_is;
          positive = r.positive;
        }),
      )
    where
      reads :
          (d' : Dll.Dll K V) (w : V)
          → entry_of (d'.cells a) ≡ some (k, w)
          → ◌>>=◌ {B = Lru K V × Option V}
              (d'.cells a)
              (λ n. some (record c { dll = d' }, some n.value))
            ≡ some (record c { dll = d' }, some w)
      reads d' w f = elim (Option-cases (d'.cells a)) [
        | inl o ↦ absurd (ground arith)
        | inr (n, o) ↦ rw o (ground arith)
      ]

  -- From a cache that stands for a list of entries, get of the pointer-based LRU uses no dead box,
  -- does not panic, returns the value of the key if it is cached, and makes it the most recent
  -- entry.
  pub get-IsCacheOf :
      {c : Lru K V} {l : List (K × V)} (k : K)
      → IsCacheOf dec cap c l
      → (c' : Lru K V) × (get dec c k ≡ some (c', Assoc.get dec k l))
        × IsCacheOf dec cap c' (lru_get dec k l)
  unfolding get
  get-IsCacheOf {c} {l} k r = elim (Option-cases (Assoc.get dec k r.index)) [
    | inl e ↦
        let miss = lookup_miss dec cap r k e in
        (
          c,
          rw (map_get_lem dec c.dll.cells k c.map r.index r.resolves, e, miss) refl,
          rw (lru_get_miss dec k l miss) r,
        )
    | inr (a, e) ↦ get_hit r k a e
  ]

  -- From a cache that stands for a list of entries, the assertion in size of the pointer-based LRU
  -- holds, size and is_empty report the number of entries, and that is at most the capacity.
  pub size-IsCacheOf :
      {c : Lru K V} {l : List (K × V)}
      → IsCacheOf dec cap c l
      → (size c ≡ some (length l)) × (is_empty c ≡ (0 == length l)) × (length l ≤ cap)
  unfolding size is_empty
  size-IsCacheOf {c} {l} r = (
    ground (arith, r.size_is, r.chain.size_is, length-IsCacheOf dec cap r),
    rw (r.size_is, length-IsCacheOf dec cap r),
    omega (arith, r.bound, length-IsCacheOf dec cap r),
  )
