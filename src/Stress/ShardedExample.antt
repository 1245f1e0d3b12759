-- ===== src/Stress/ShardedExample.antt =====
-- examples/sharded.rs, for any hash.
use text.Mathlib.Text.{◌==◌ as str_eq}
use text.Mathlib.TextEquality.{eq_iff}
use test_thread_safe_lru_cac.Base.{
  ℕ, ◌≡◌, ◌≢◌, refl, ap, ◌∙◌, false, Option, none, some, List, [], ◌∷◌, ◌>>=◌, Bool-cases, inl, inr,
  arith, String, if_pos, if_neg, if◌then◌else◌,
}
use test_thread_safe_lru_cac.Sharded.Eviction.Policies
use test_thread_safe_lru_cac.Sharded.Eviction.Policies.{lru-IsPolicy}
use test_thread_safe_lru_cac.Sharded.Cache.{push, get, lru}
use test_thread_safe_lru_cac.Sharded.Cache.Methods.{push-IsSpreadOf, get-IsSpreadOf}
use test_thread_safe_lru_cac.Sharded.Cache.Runs.{Call, call_push, call_get, build-IsSpreadOf}
use test_thread_safe_lru_cac.Sharded.Cache.Fresh.Roomy.{new-last_writes}

differ : (s t : String) → str_eq s t ≡ false → s ≢ t
differ s t e p = ground (arith, (eq_iff s t).1 p)

String_discrete : Discrete String
String_discrete s t = elim (Bool-cases (str_eq s t)) [
  | inl e ↦ yes ((eq_iff s t).0 e)
  | inr e ↦ no (differ s t e)
]

-- `assert_eq!` of a reply, which panics with `none`.
abbrev assert_found : Option String → String → Option (Unit {0})
assert_found none t = none
assert_found (some s) t = if str_eq s t then some tt else none

module _ (hash_one : String → ℕ) where
  unfoldable with_example : Option (Unit {0})
  with_example = do
    c ← lru String_discrete 1000 8
    c ← push (Policies.lru String_discrete) hash_one c "hi" "hello"
    c ← push (Policies.lru String_discrete) hash_one c "foo" "temp"
    (_, found) ← get (Policies.lru String_discrete) hash_one c "hi"
    assert_found found "hello"

  -- It has the same body, and waits for nothing.
  unfoldable with_async_example : Option (Unit {0})
  unfolding with_example
  with_async_example = with_example

  unfoldable main : Option (Unit {0})
  unfolding with_example with_async_example
  main = do _ ← with_async_example; with_example

  abbrev calls : List (Call String String)
  calls = call_push "hi" "hello" ∷ call_push "foo" "temp" ∷ call_get "hi" ∷ []

  abbrev first_reply : List (Option String) → Option String
  first_reply [] = none
  first_reply (r ∷ rs) = r

  -- Also where both keys are on one shard, the second push leaves the first entry.
  with_example_lem : with_example ≡ some tt
  unfolding with_example lru
  with_example_lem =
      let (c, built, r) =
        build-IsSpreadOf (lru-IsPolicy {V = String} String_discrete) hash_one 1000 8
          (omega arith) in
      let (c1, e1, r1) = push-IsSpreadOf (lru-IsPolicy String_discrete) hash_one r "hi" "hello" in
      let (c2, e2, r2) = push-IsSpreadOf (lru-IsPolicy String_discrete) hash_one r1 "foo" "temp" in
      let (c3, e3, r3) = get-IsSpreadOf (lru-IsPolicy String_discrete) hash_one r2 "hi" in
      let found =
        ap first_reply (
          new-last_writes (lru-IsPolicy String_discrete) hash_one 1000 8 calls (omega arith)
            (omega arith))
        ∙ if_neg (String_discrete "hi" "foo") (differ "hi" "foo" refl) _ _
        ∙ if_pos (String_discrete "hi" "hi") refl _ _ in
      rw (built, e1, e2, e3, found) refl

  -- Both assertions of the example hold.
  main_lem : main ≡ some tt
  unfolding main with_async_example
  main_lem = rw with_example_lem refl
