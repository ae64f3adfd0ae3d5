-- ===== src/Vector/FlowId/Candidates.antt =====
-- src/vector/flow_id.rs: the ids that the loop of `allocate` tries, one for each round.
use nowhere.Common.{
  ℕ, zero, suc, ◌+◌, ◌≡◌, ◌≢◌, ◌≤◌, ◌<◌, refl, List, [], ◌∷◌, true, false, ◌==◌, ==_iff, Bool-cases,
  length, All, inl, inr, arith,
}
use nowhere.Vector.FlowId.{contains, without, fetch_id}

-- No id is in the list twice.
abbrev pub NoRepeats : List ℕ → Type 0
NoRepeats [] = Unit {0}
NoRepeats (x ∷ xs) = (contains x xs ≡ false) × NoRepeats xs

pub without_absent :
    (x y : ℕ) (xs : List ℕ) → contains x xs ≡ false → contains x (without y xs) ≡ false
without_absent x y [] e = refl
without_absent x y (z ∷ xs) e = ground (arith, without_absent x y xs)

without_present :
    (x y : ℕ) (xs : List ℕ) → x ≢ y → contains x xs ≡ true → contains x (without y xs) ≡ true
without_present x y [] n e = cc
without_present x y (z ∷ xs) n e = ground (arith, without_present x y xs n)

pub length-without :
    (x : ℕ) (xs : List ℕ) → contains x xs ≡ true → length (without x xs) + 1 ≡ length xs
length-without x [] e = cc
length-without x (y ∷ xs) e = ground (arith, length-without x xs)

pub without-NoRepeats : (x : ℕ) (xs : List ℕ) → NoRepeats xs → NoRepeats (without x xs)
without-NoRepeats x [] d = tt
without-NoRepeats x (y ∷ xs) d = ground (arith, without_absent y x xs, without-NoRepeats x xs d.1)

-- The id that is not the one taken out.
All-without :
    (x : ℕ) (xs ys : List ℕ)
    → contains x xs ≡ false
    → All (λ y. contains y ys ≡ true) xs
    → All (λ y. contains y (without x ys) ≡ true) xs
All-without x [] ys e a = tt
All-without x (y ∷ xs) ys e a = elim (Bool-cases (y == x)) [
  | inl h ↦ absurd (ground (arith, h))
  | inr h ↦ (
    without_present y x ys (λ p. ground (arith, p)) a.0,
    All-without x xs ys (ground (arith, h)) a.1,
  )
]

-- A list without repeats is not longer than one that has all its elements.
pub contained_length :
    (xs ys : List ℕ) → NoRepeats xs → All (λ x. contains x ys ≡ true) xs → length xs ≤ length ys
contained_length [] ys d a = omega arith
contained_length (x ∷ xs) ys d a =
    let rest = contained_length xs (without x ys) d.1 (All-without x xs ys d.0 a.1) in
    omega (arith, length-without x ys a.0)

abbrev pub candidates : ℕ → ℕ → List ℕ
candidates zero next = []
candidates (suc rounds) next = (fetch_id next).0 ∷ candidates rounds (fetch_id next).1

-- The ids go up by one, and from the greatest back to one.
==_false : (a b : ℕ) → a ≢ b → (a == b) ≡ false
==_false a b h = ground arith

pub record Steps (next : ℕ) : Type 0 where
  pub positive : 1 ≤ (fetch_id next).0
  pub small : (fetch_id next).0 ≤ 4_294_967_295
  pub typed : (fetch_id next).1 < 4_294_967_296
  up : (fetch_id next).0 < 4_294_967_295 → (fetch_id (fetch_id next).1).0 ≡ (fetch_id next).0 + 1
  around : (fetch_id next).0 ≡ 4_294_967_295 → (fetch_id (fetch_id next).1).0 ≡ 1

pub fetch_id-Steps : (next : ℕ) → next < 4_294_967_296 → Steps next
fetch_id-Steps next h = record {
  positive = ground arith;
  small = ground arith;
  typed = ground arith;
  up = λ k. ground arith;
  around = λ k. ground arith;
}

-- Going up from an id, another one is not reached in as many rounds.
abbrev Far : ℕ → ℕ → ℕ → Type 0
Far rounds c x = (x < c → c + rounds ≤ x + 4_294_967_295) × (c ≤ x → c + rounds ≤ x)

candidates-Far :
    (rounds next x : ℕ)
    → next < 4_294_967_296
    → 1 ≤ x
    → x ≤ 4_294_967_295
    → Far rounds (fetch_id next).0 x
    → contains x (candidates rounds next) ≡ false
candidates-Far zero next x h l u f = refl
candidates-Far (suc rounds) next x h l u (below, above) =
    let s = fetch_id-Steps next h in
    let other : (fetch_id next).0 ≢ x = λ e. omega (arith, e, above) in
    let far : Far rounds (fetch_id (fetch_id next).1).0 x =
      elim (Bool-cases ((fetch_id next).0 == 4_294_967_295)) [
        | inl k ↦
            let top : (fetch_id next).0 ≡ 4_294_967_295 = (==_iff _ _).0 k in
            (
              λ m. omega (arith, m, below, s.around top, top),
              λ m. omega (arith, m, below, other, s.around top, top),
            )
        | inr k ↦
            let up : (fetch_id next).0 < 4_294_967_295 = ground (arith, s.small) in
            (λ m. omega (arith, m, below, other, s.up up), λ m. omega (arith, m, above, s.up up))
      ] in
    let rest = candidates-Far rounds (fetch_id next).1 x s.typed l u far in
    rw (==_false (fetch_id next).0 x other) rest

pub candidates-NoRepeats :
    (rounds next : ℕ)
    → next < 4_294_967_296
    → rounds ≤ 4_294_967_295
    → NoRepeats (candidates rounds next)
candidates-NoRepeats zero next h k = tt
candidates-NoRepeats (suc rounds) next h k =
    let s = fetch_id-Steps next h in
    let far : Far rounds (fetch_id (fetch_id next).1).0 (fetch_id next).0 =
      elim (Bool-cases ((fetch_id next).0 == 4_294_967_295)) [
        | inl e ↦
            let top : (fetch_id next).0 ≡ 4_294_967_295 = (==_iff _ _).0 e in
            (λ m. omega (arith, m, s.around top, top), λ m. omega (arith, m, k, s.around top, top))
        | inr e ↦
            let up : (fetch_id next).0 < 4_294_967_295 = ground (arith, s.small) in
            (λ m. omega (arith, m, k, s.up up), λ m. omega (arith, m, s.up up))
      ] in
    (
      candidates-Far rounds (fetch_id next).1 (fetch_id next).0 s.typed s.positive s.small far,
      candidates-NoRepeats rounds (fetch_id next).1 s.typed (omega arith),
    )
