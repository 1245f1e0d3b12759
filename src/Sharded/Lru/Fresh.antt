-- ===== src/Sharded/Lru/Fresh.antt =====
-- What a reader of one LRU shard gets, against the writes alone.
use test_thread_safe_lru_cac.Base.{
  ℕ, ◌≡◌, ◌⊎◌, inl, inr, refl, sym, subst, ◌∙◌, Option, none, some, List, [], ◌∷◌, ite, if_pos,
  if_neg, arith, Option-cases, if◌then◌else◌, Bool, true, false, leb, length,
}
use test_thread_safe_lru_cac.Assoc
use test_thread_safe_lru_cac.Spec.{
  drop_last, lru_push, lru_get, lru_push_hit, lru_push_miss, lru_get_hit, lru_get_miss,
  get-lru_push, get-lru_get, lru_push-IsKept,
}
use test_thread_safe_lru_cac.Sharded.Lru.Concurrent.{
  Event, event_read, event_flush, event_push, event_remove, event_contains, event_len,
  event_is_empty, entries_after,
}

module _ {K V : Type 0} (dec : Discrete K) where
  -- The value that the events before wrote last.
  abbrev pub last_write : K → List (Event K V) → Option V
  last_write k [] = none
  last_write k (event_push j v ∷ past) = ite (dec k j) (some v) (last_write k past)
  last_write k (event_remove j ∷ past) = ite (dec k j) none (last_write k past)
  last_write k (_ ∷ past) = last_write k past

  get-drop_last-none :
      (j : K) (l : List (K × V)) → Assoc.get dec j l ≡ none → Assoc.get dec j (drop_last l) ≡ none
  get-drop_last-none j [] e = refl
  get-drop_last-none j (x ∷ []) e = refl
  get-drop_last-none j ((k, v) ∷ x ∷ l) e = ground (arith, get-drop_last-none j (x ∷ l))

  Unique-drop_last : (l : List (K × V)) → Assoc.Unique dec l → Assoc.Unique dec (drop_last l)
  Unique-drop_last [] u = tt
  Unique-drop_last (x ∷ []) u = tt
  Unique-drop_last ((k, v) ∷ x ∷ l) u =
      (get-drop_last-none k (x ∷ l) u.0, Unique-drop_last (x ∷ l) u.1)

  Unique-kept :
      (b : Bool) (k : K) (l : List (K × V))
      → Assoc.get dec k l ≡ none
      → Assoc.Unique dec l
      → (Assoc.get dec k (if b then drop_last l else l) ≡ none)
        × Assoc.Unique dec (if b then drop_last l else l)
  Unique-kept true k l e u = (get-drop_last-none k l e, Unique-drop_last l u)
  Unique-kept false k l e u = (e, u)

  Unique-moved :
      (k : K) (v : V) (l : List (K × V))
      → Assoc.Unique dec l
      → Assoc.Unique dec ((k, v) ∷ Assoc.remove dec k l)
  Unique-moved k v l u = (Assoc.get-remove_self dec k l u, Assoc.Unique-remove dec k l u)

  module _ (cap : ℕ) where
    Unique-lru_push :
        (k : K) (v : V) (l : List (K × V))
        → Assoc.Unique dec l
        → Assoc.Unique dec (lru_push dec cap k v l)
    Unique-lru_push k v l u = elim (Option-cases (Assoc.get dec k l)) [
      | inl e ↦ rw (lru_push_miss dec cap k v l e) (Unique-kept (leb cap (length l)) k l e u)
      | inr (w, e) ↦ rw (lru_push_hit dec cap k v l e) (Unique-moved k v l u)
    ]

    Unique-lru_get :
        (k : K) (l : List (K × V)) → Assoc.Unique dec l → Assoc.Unique dec (lru_get dec k l)
    Unique-lru_get k l u = elim (Option-cases (Assoc.get dec k l)) [
      | inl e ↦ rw (lru_get_miss dec k l e) u
      | inr (w, e) ↦ rw (lru_get_hit dec k l e) (Unique-moved k w l u)
    ]

    Unique-entries_after : (past : List (Event K V)) → Assoc.Unique dec (entries_after dec cap past)
    Unique-entries_after [] = tt
    Unique-entries_after (event_read k o ∷ past) = Unique-lru_get k _ (Unique-entries_after past)
    Unique-entries_after (event_push k v ∷ past) = Unique-lru_push k v _ (Unique-entries_after past)
    Unique-entries_after (event_remove k ∷ past) =
        Assoc.Unique-remove dec k _ (Unique-entries_after past)
    Unique-entries_after (event_flush ∷ past) = Unique-entries_after past
    Unique-entries_after (event_contains k b ∷ past) = Unique-entries_after past
    Unique-entries_after (event_len m ∷ past) = Unique-entries_after past
    Unique-entries_after (event_is_empty b ∷ past) = Unique-entries_after past

    abbrev pub IsCurrent : K → List (Event K V) → Option V → Type 0
    IsCurrent j past o = (o ≡ none) ⊎ (o ≡ last_write j past)

    -- Every entry of the specification has the value that was written last.
    pub entries_after-IsCurrent :
        (j : K) (past : List (Event K V))
        → IsCurrent j past (Assoc.get dec j (entries_after dec cap past))
    entries_after-IsCurrent j [] = inl refl
    entries_after-IsCurrent j (event_read k o ∷ past) =
        rw (get-lru_get dec k j (entries_after dec cap past)) (entries_after-IsCurrent j past)
    entries_after-IsCurrent j (event_push k v ∷ past) = elim (dec j k) [
      | yes p ↦ inr (
          subst (λ i. Assoc.get dec i (lru_push dec cap k v (entries_after dec cap past)) ≡ some v)
            (sym p) (get-lru_push dec cap k v (entries_after dec cap past))
          ∙ sym (if_pos (dec j k) p _ _))
      | no ne ↦ elim (lru_push-IsKept dec cap k j v (entries_after dec cap past) ne) [
        | inl e ↦ inl e
        | inr e ↦ rw (e, if_neg (dec j k) ne) (entries_after-IsCurrent j past)
      ]
    ]
    entries_after-IsCurrent j (event_remove k ∷ past) = elim (dec j k) [
      | yes p ↦ inl (
          subst (λ i. Assoc.get dec i (Assoc.remove dec k (entries_after dec cap past)) ≡ none)
            (sym p) (Assoc.get-remove_self dec k _ (Unique-entries_after past)))
      | no ne ↦
          rw (Assoc.get-remove_ne dec k j _ ne, if_neg (dec j k) ne)
            (entries_after-IsCurrent j past)
    ]
    entries_after-IsCurrent j (event_flush ∷ past) = entries_after-IsCurrent j past
    entries_after-IsCurrent j (event_contains k b ∷ past) = entries_after-IsCurrent j past
    entries_after-IsCurrent j (event_len m ∷ past) = entries_after-IsCurrent j past
    entries_after-IsCurrent j (event_is_empty b ∷ past) = entries_after-IsCurrent j past
