-- ===== src/Common/MapKeep.antt =====
-- The entries of a map that a change of another key, or a filter that they pass, leaves.
use nowhere.Common.Tests.{Bool-cases}
use nowhere.Common.Map.{get, remove, keep}
use mathlib.Core.Path.{◌≡◌}
use mathlib.Core.Logic.{inl, inr}
use mathlib.Core.Bool.{Bool, true, false}
use mathlib.Core.Option.{some}
use mathlib.Core.List.{List, [], ◌∷◌}
use native.Mathlib.Omega.{arith}

module _ {K V : Type 0} (same : K → K → Bool) where
  -- `trans`: an entry of the key is not one of another key.
  pub get-remove :
      ((i j k : K) → same i j ≡ true → same i k ≡ true → same j k ≡ true)
      → (j k : K) (m : List (K × V)) → same j k ≡ false
      → get same k (remove same j m) ≡ get same k m
  get-remove eq j k [] n = ground arith
  get-remove eq j k ((i, v) ∷ m) n =
      let rest = get-remove eq j k m n in
      elim (Bool-cases (same i j)) [
        | inl h ↦ elim (Bool-cases (same i k)) [
          | inl g ↦ let both = eq i j k h g in cc
          | inr g ↦ ground (arith, h, g, rest)
        ]
        | inr h ↦ ground (arith, h, rest)
      ]

  pub get-keep :
      ((i k : K) → same i k ≡ true → i ≡ k)
      → (k : K) (v : V) (test : K → V → Bool) (m : List (K × V)) → get same k m ≡ some v
      → test k v ≡ true
      → get same k (keep test m) ≡ some v
  get-keep eq k v test [] e t = cc
  get-keep eq k v test ((i, w) ∷ m) e t = elim (Bool-cases (same i k)) [
    | inl h ↦
        let key : i ≡ k = eq i k h in
        let value : w ≡ v = ground arith in
        let passes : test i w ≡ true = rw (key, value) t in ground (arith, h, passes, value)
    | inr h ↦
        let rest = get-keep eq k v test m (ground (arith, e, h)) t in
        elim (Bool-cases (test i w)) [ inl g ↦ rw (g, h) rest | inr g ↦ rw g rest ]
  ]
