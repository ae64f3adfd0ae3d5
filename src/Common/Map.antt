-- ===== src/Common/Map.antt =====
-- A hash map as an association list. `put` takes the old entries of the key out, so that a key of
-- a map that is made by these operations has one entry.
use nowhere.Common.Tests.{if◌then◌else◌, Bool-cases}
use Prim.Native.Nat.{ℕ, ◌+◌, ◌≤◌}
use mathlib.Core.Path.{◌≡◌, sym, subst}
use mathlib.Core.Logic.{inl, inr}
use mathlib.Core.Bool.{Bool, true}
use mathlib.Core.Option.{Option, none, some}
use mathlib.Core.List.{List, [], ◌∷◌}
use native.Mathlib.Omega.{arith}

module _ {K V : Type 0} (same : K → K → Bool) where
  abbrev pub get : K → List (K × V) → Option V
  get k [] = none
  get k ((j, v) ∷ m) = if same j k then some v else get k m

  abbrev pub remove : K → List (K × V) → List (K × V)
  remove k [] = []
  remove k ((j, v) ∷ m) = if same j k then remove k m else (j, v) ∷ remove k m

  abbrev pub put : K → V → List (K × V) → List (K × V)
  put k v m = (k, v) ∷ remove k m

module _ {K V : Type 0} where
  -- `retain`
  abbrev pub keep : (K → V → Bool) → List (K × V) → List (K × V)
  keep test [] = []
  keep test ((j, v) ∷ m) = let rest = keep test m in if test j v then (j, v) ∷ rest else rest

  -- `iter().filter(test).count()`
  abbrev pub count : (K → V → Bool) → List (K × V) → ℕ
  count test [] = 0
  count test ((j, v) ∷ m) = (if test j v then 1 else 0) + count test m

  -- Every entry has the property.
  abbrev pub Each : (K → V → Type 0) → List (K × V) → Type 0
  Each P [] = Unit {0}
  Each P ((j, v) ∷ m) = P j v × Each P m

module _ {K V : Type 0} (same : K → K → Bool) (P : K → V → Type 0) where
  pub get-Each :
      ((j k : K) → same j k ≡ true → j ≡ k)
      → (k : K) (m : List (K × V)) (v : V) → Each P m
      → get same k m ≡ some v
      → P k v
  get-Each eq k [] v a e = cc
  get-Each eq k ((j, w) ∷ m) v a e = elim (Bool-cases (same j k)) [
    | inl h ↦ subst (P k) {x = w} {y = v} (ground arith) (subst (λ i. P i w) (eq j k h) a.0)
    | inr h ↦ get-Each eq k m v a.1 (ground arith)
  ]

  pub remove-Each : (k : K) (m : List (K × V)) → Each P m → Each P (remove same k m)
  remove-Each k [] a = tt
  remove-Each k ((j, v) ∷ m) a = elim (Bool-cases (same j k)) [
    | inl h ↦ rw h (remove-Each k m a.1)
    | inr h ↦ rw h (a.0, remove-Each k m a.1)
  ]

module _ {K V : Type 0} (P : K → V → Type 0) where
  pub keep-Each : (test : K → V → Bool) (m : List (K × V)) → Each P m → Each P (keep test m)
  keep-Each test [] a = tt
  keep-Each test ((j, v) ∷ m) a = elim (Bool-cases (test j v)) [
    | inl h ↦ rw h (a.0, keep-Each test m a.1)
    | inr h ↦ rw h (keep-Each test m a.1)
  ]

module _ {K V : Type 0} (same : K → K → Bool) (test : K → V → Bool) where
  pub count-remove : (k : K) (m : List (K × V)) → count test (remove same k m) ≤ count test m
  count-remove k [] = omega arith
  count-remove k ((j, v) ∷ m) = ground (arith, count-remove k m)

  -- An entry that passes the test and goes is no longer counted.
  pub count-remove_lt :
      ((j k : K) → same j k ≡ true → j ≡ k)
      → (k : K) (m : List (K × V)) (v : V) → get same k m ≡ some v
      → test k v ≡ true
      → count test (remove same k m) + 1 ≤ count test m
  count-remove_lt eq k [] v e t = cc
  count-remove_lt eq k ((j, w) ∷ m) v e t = elim (Bool-cases (same j k)) [
    | inl h ↦
        let here : test j w ≡ true =
          subst (λ i. test i w ≡ true) (sym (eq j k h))
            (subst (λ u. test k u ≡ true) {x = v} {y = w} (ground arith) t) in
        ground (arith, count-remove k m, here)
    | inr h ↦ let rest = count-remove_lt eq k m v (ground arith) t in ground (arith, rest)
  ]

module _ {K V : Type 0} where
  pub count-keep :
      (test other : K → V → Bool) (m : List (K × V)) → count test (keep other m) ≤ count test m
  count-keep test other [] = omega arith
  count-keep test other ((j, v) ∷ m) = ground (arith, count-keep test other m)
