-- ===== src/Basic/Safe/Recency.antt =====
-- The eviction order of src/basic/safe.rs, told from what the callers see: a key is used by a push of
-- it and by a get that finds it, and the cache forgets exactly the keys that were not used while as
-- many others as it can hold were.
pub mod Window
use test_thread_safe_lru_cac.Base.{
  ℕ, zero, suc, ◌<◌, ◌≡◌, refl, sym, subst, ap, ◌∙◌, Option, none, some, List, [], ◌∷◌, ite, if_pos,
  if_neg, arith, length, ltb, if◌then◌else◌, Option-cases, inl, inr,
}
use test_thread_safe_lru_cac.Assoc
use test_thread_safe_lru_cac.Spec.{lru_push, lru_get, lru_get_miss}
use test_thread_safe_lru_cac.Basic.Safe.{ThreadSafeLru}
use test_thread_safe_lru_cac.Basic.Safe.Concurrent.{
  Call, call_push, call_get, call_len, call_is_empty, Reach, entries_after, IsAnswer, IsExplained,
  Reach-IsGuardOf,
}
use test_thread_safe_lru_cac.Basic.Safe.Recency.Window.{
  delete, before, take, touch, get-take, before-touch, lru_push-take, lru_get-take, get-touch,
}

module _ {K V : Type 0} (dec : Discrete K) where
  -- The value that was pushed last for a key.
  abbrev pub last_push : K → List (Call K V) → Option V
  last_push k [] = none
  last_push k (call_push j v o ∷ past) = ite (dec k j) (some v) (last_push k past)
  last_push k (_ ∷ past) = last_push k past

  -- The keys that were used after the last use of `k`, each once.
  abbrev pub used_since : K → List (Call K V) → List K
  used_since k [] = []
  used_since k (call_push j v o ∷ past) = ite (dec k j) [] (j ∷ delete dec j (used_since k past))
  used_since k (call_get j (some (some v)) ∷ past) =
      ite (dec k j) [] (j ∷ delete dec j (used_since k past))
  used_since k (_ ∷ past) = used_since k past

  -- A get finds a key if fewer others were used since than the cache can hold, and nothing else.
  abbrev pub IsRecent : ℕ → List (Call K V) → Type 0
  IsRecent cap [] = Unit
  IsRecent cap (call_get k o ∷ past) =
      (o ≡ some (if ltb (length (used_since k past)) cap then last_push k past else none))
      × IsRecent cap past
  IsRecent cap (_ ∷ past) = IsRecent cap past

  -- All entries ever used, most recently used first.
  uses : List (Call K V) → List (K × V)
  uses [] = []
  uses (call_push k v o ∷ past) = touch dec k v (uses past)
  uses (call_get k (some (some v)) ∷ past) = touch dec k v (uses past)
  uses (_ ∷ past) = uses past

  -- The entries are the first of those, and what is seen tells their values and places.
  record IsWindow (cap : ℕ) (past : List (Call K V)) : Type 0 where
    entries : entries_after dec cap past ≡ take cap (uses past)
    values : (k : K) → Assoc.get dec k (uses past) ≡ last_push k past
    places : (k : K) → before dec k (uses past) ≡ used_since k past

  find-IsWindow :
      (cap : ℕ) (past : List (Call K V)) (k : K)
      → IsWindow cap past
      → Assoc.get dec k (entries_after dec cap past)
        ≡ (if ltb (length (used_since k past)) cap then last_push k past else none)
  find-IsWindow cap past k w =
      ap (Assoc.get dec k) w.entries
      ∙ get-take dec k cap (uses past)
      ∙ rw (w.values k, w.places k) refl

  module _ (m : ℕ) where
    push-IsWindow :
        (k : K) (v : V) (o : Option {0} Unit) (past : List (Call K V))
        → IsWindow (suc m) past
        → IsWindow (suc m) (call_push k v o ∷ past)
    unfolding uses
    push-IsWindow k v o past w = record {
      entries = ap (lru_push dec (suc m) k v) w.entries ∙ lru_push-take dec m k v (uses past);
      values = λ j. get-touch dec j k v (uses past) ∙ ap (ite (dec j k) (some v)) (w.values j);
      places = λ j.
          before-touch dec j k v (uses past)
          ∙ ap (λ l. ite (dec j k) [] (k ∷ delete dec k l)) (w.places j);
    }

    hit-IsWindow :
        (k : K) (v : V) (past : List (Call K V))
        → Assoc.get dec k (entries_after dec (suc m) past) ≡ some v
        → IsWindow (suc m) past
        → IsWindow (suc m) (call_get k (some (some v)) ∷ past)
    unfolding uses
    hit-IsWindow k v past e w = record {
      entries =
          ap (lru_get dec k) w.entries
          ∙ lru_get-take dec m k v (uses past) (ap (Assoc.get dec k) (sym w.entries) ∙ e);
      values = λ j. get-touch dec j k v (uses past) ∙ same j (dec j k);
      places = λ j.
          before-touch dec j k v (uses past)
          ∙ ap (λ l. ite (dec j k) [] (k ∷ delete dec k l)) (w.places j);
    }
      where
        pushed : last_push k past ≡ some v
        pushed = ground (arith, find-IsWindow (suc m) past k w, e)

        same :
            (j : K) (d : Dec (j ≡ k))
            → ite d (some v) (Assoc.get dec j (uses past)) ≡ last_push j past
        same j (yes p) = sym (subst (λ i. last_push i past ≡ some v) (sym p) pushed)
        same j (no ne) = w.values j

    miss-IsWindow :
        (k : K) (past : List (Call K V))
        → Assoc.get dec k (entries_after dec (suc m) past) ≡ none
        → IsWindow (suc m) past
        → IsWindow (suc m) (call_get k (some none) ∷ past)
    unfolding uses
    miss-IsWindow k past e w = record {
      entries = lru_get_miss dec k _ e ∙ w.entries;
      values = w.values;
      places = w.places;
    }

    explained-IsWindow :
        (past : List (Call K V)) → IsExplained dec (suc m) past → IsWindow (suc m) past
    unfolding uses
    explained-IsWindow [] x = record { entries = refl; values = λ k. refl; places = λ k. refl }
    explained-IsWindow (call_push k v o ∷ past) x =
        push-IsWindow k v o past (explained-IsWindow past x.1)
    explained-IsWindow (call_get k (some (some v)) ∷ past) x =
        hit-IsWindow k v past (ground (arith, x.0)) (explained-IsWindow past x.1)
    explained-IsWindow (call_get k (some none) ∷ past) x =
        miss-IsWindow k past (ground (arith, x.0)) (explained-IsWindow past x.1)
    explained-IsWindow (call_get k none ∷ past) x = absurd (ground (arith, x.0))
    explained-IsWindow (call_len o ∷ past) x =
        let w = explained-IsWindow past x.1 in
        record { entries = w.entries; values = w.values; places = w.places }
    explained-IsWindow (call_is_empty o ∷ past) x =
        let w = explained-IsWindow past x.1 in
        record { entries = w.entries; values = w.values; places = w.places }

    pub explained-IsRecent :
        (past : List (Call K V)) → IsExplained dec (suc m) past → IsRecent (suc m) past
    explained-IsRecent [] x = tt
    explained-IsRecent (call_get k o ∷ past) x = (
      x.0 ∙ ap some (find-IsWindow (suc m) past k (explained-IsWindow past x.1)),
      explained-IsRecent past x.1,
    )
    explained-IsRecent (call_push k v o ∷ past) x = explained-IsRecent past x.1
    explained-IsRecent (call_len o ∷ past) x = explained-IsRecent past x.1
    explained-IsRecent (call_is_empty o ∷ past) x = explained-IsRecent past x.1

  -- In every sequence of critical sections of a new mutex cache of positive capacity, where each
  -- new box gets an address that no live box has, a get finds a key, with the value of its last
  -- push, exactly if fewer distinct other keys than the capacity were used since its last use,
  -- where a use is a push of the key or a get that found it, as its caller saw.
  pub Reach-IsRecent :
      (cap : ℕ) {past : List (Call K V)} {s : ThreadSafeLru K V}
      → 0 < cap
      → Reach dec cap past s
      → IsRecent cap past
  Reach-IsRecent zero h reach = absurd (omega arith)
  Reach-IsRecent (suc m) {past} h reach =
      explained-IsRecent m past (Reach-IsGuardOf dec (suc m) h reach).1
