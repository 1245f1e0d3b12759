-- ===== src/Sharded/Eviction/Policies.antt =====
-- The two policies behind the trait: `impl Eviction for Lru` and `impl Eviction for Fifo`.
use test_thread_safe_lru_cac.Base.{ℕ, ◌≡◌, refl, arith, Option, some, List, ◌>>=◌}
use test_thread_safe_lru_cac.Assoc
use test_thread_safe_lru_cac.Spec.{
  lru_push, lru_get, fifo_push, get-lru_push, get-lru_get, get-fifo_push, lru_push-IsKept,
  fifo_push-IsKept,
}
use test_thread_safe_lru_cac.Spec.Roomy.{
  length-lru_get, length-lru_push, get-lru_push_roomy, length-fifo_push, get-fifo_push_roomy,
  get-lru_push_present, get-fifo_push_present,
}
use test_thread_safe_lru_cac.Store.Index.{Unique-entries}
use test_thread_safe_lru_cac.Sharded.Slots.{slot}
use test_thread_safe_lru_cac.Sharded.Lru
use test_thread_safe_lru_cac.Sharded.Lru.Refine
use test_thread_safe_lru_cac.Sharded.Lru.Methods
use test_thread_safe_lru_cac.Sharded.Fifo
use test_thread_safe_lru_cac.Sharded.Fifo.Methods as FifoMethods
use test_thread_safe_lru_cac.Sharded.Eviction.{Eviction, IsPolicy}

module _ {K V : Type 0} (dec : Discrete K) where
  abbrev pub lru : Eviction K V
  lru = record {
    Shard = Lru.Lru K V;
    new = Lru.new;
    get = Lru.get dec;
    push = Lru.push dec;
    remove = Lru.remove dec;
    contains = Lru.contains dec;
    len = Lru.len;
    is_empty = Lru.is_empty;
  }

  -- `get` of the FIFO policy changes nothing.
  unfoldable pub fifo_get : Fifo.Fifo K V → K → Option (Fifo.Fifo K V × Option V)
  fifo_get c k = do v ← Fifo.get dec c k; some (c, v)

  abbrev pub fifo : Eviction K V
  fifo = record {
    Shard = Fifo.Fifo K V;
    new = Fifo.new;
    get = fifo_get;
    push = Fifo.push dec;
    remove = Fifo.remove dec;
    contains = Fifo.contains dec;
    len = Fifo.len;
    is_empty = Fifo.is_empty;
  }

  pub lru-Unique :
      (cap : ℕ) (c : Lru.Lru K V) (l : List (K × V))
      → Refine.Represents dec cap c l
      → Assoc.Unique dec l
  lru-Unique cap c l r =
      let f = Refine.flush dec cap r in
      rw (← f.holds) (
        Unique-entries dec f.inner'.map (slot f.inner'.nodes) _ f.valid.indexed
          f.valid.linked.distinct)

  pub fifo-Unique :
      (cap : ℕ) (c : Fifo.Fifo K V) (l : List (K × V))
      → FifoMethods.IsQueueOf dec cap c l
      → Assoc.Unique dec l
  fifo-Unique cap c l r = rw (← r.holds) (
      Unique-entries dec c.inner.map (slot c.inner.nodes) r.order r.valid.indexed
        r.valid.linked.distinct)

  pub fifo_get-IsQueueOf :
      (cap : ℕ) (c : Fifo.Fifo K V) (l : List (K × V)) (k : K)
      → FifoMethods.IsQueueOf dec cap c l
      → (c' : Fifo.Fifo K V) × (fifo_get c k ≡ some (c', Assoc.get dec k l))
        × FifoMethods.IsQueueOf dec cap c' l
  unfolding fifo_get
  fifo_get-IsQueueOf cap c l k r = (c, rw (FifoMethods.get-IsQueueOf dec cap r k) refl, r)

  -- The LRU policy keeps the promises of the trait.
  unfoldable pub lru-IsPolicy : IsPolicy dec lru
  lru-IsPolicy = record {
    Stands = Refine.Represents dec;
    push_list = lru_push dec;
    get_list = lru_get dec;
    new_stands = λ cap. Refine.new-Represents dec cap;
    get_stands = λ cap s l k r. Methods.get-Represents dec cap k r;
    push_stands = λ cap s l k v r. Methods.push-Represents dec cap k v r;
    remove_stands = λ cap s l k r. Methods.remove-Represents dec cap k r;
    contains_is = λ cap s l k r. Methods.contains-Represents dec cap r k;
    len_is = λ cap s l r. Methods.len-Represents dec cap r;
    unique = lru-Unique;
    get-push_list = λ cap k v l u. get-lru_push dec cap k v l;
    kept-push_list = λ cap k j v l u ne. lru_push-IsKept dec cap k j v l ne;
    get-get_list = get-lru_get dec;
    roomy-push_list = get-lru_push_roomy dec;
    length-push_list = length-lru_push dec;
    length-get_list = length-lru_get dec;
    present-push_list = get-lru_push_present dec;
  }

  -- The FIFO policy keeps the promises of the trait.
  unfoldable pub fifo-IsPolicy : IsPolicy dec fifo
  fifo-IsPolicy = record {
    Stands = FifoMethods.IsQueueOf dec;
    push_list = fifo_push dec;
    get_list = λ k l. l;
    new_stands = λ cap. FifoMethods.new-IsQueueOf dec cap;
    get_stands = fifo_get-IsQueueOf;
    push_stands = λ cap s l k v r. FifoMethods.push-IsQueueOf dec cap r k v;
    remove_stands = λ cap s l k r. FifoMethods.remove-IsQueueOf dec cap r k;
    contains_is = λ cap s l k r. FifoMethods.contains-IsQueueOf dec cap r k;
    len_is = λ cap s l r. FifoMethods.len-IsQueueOf dec cap r;
    unique = fifo-Unique;
    get-push_list = get-fifo_push dec;
    kept-push_list = fifo_push-IsKept dec;
    get-get_list = λ k j l. refl;
    roomy-push_list = get-fifo_push_roomy dec;
    length-push_list = length-fifo_push dec;
    length-get_list = λ k l. omega arith;
    present-push_list = get-fifo_push_present dec;
  }
