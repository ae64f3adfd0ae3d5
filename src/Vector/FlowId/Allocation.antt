-- ===== src/Vector/FlowId/Allocation.antt =====
-- src/vector/flow_id.rs: `allocate` and `release` on a sound allocator.
use nowhere.Common.{
  ℕ, zero, suc, ◌+◌, ◌≡◌, ◌≤◌, ◌<◌, refl, ap, List, [], ◌∷◌, Option, none, some, true, false, ◌==◌,
  ==_iff, if◌then◌else◌, leb, Bool-cases, length, All, inl, inr, ok, arith,
}
use nowhere.Vector.FlowId.{
  Allocator, new_allocator, contains, without, fetch_id, find_id, allocate, release,
}
use nowhere.Vector.FlowId.Candidates.{
  NoRepeats, without-NoRepeats, length-without, contained_length, candidates, candidates-NoRepeats,
  fetch_id-Steps,
}

abbrev pub IsFlowId : ℕ → Type 0
IsFlowId id = (1 ≤ id) × (id ≤ 4_294_967_295)

-- The counter has 32 bits, and the active ids are flow ids, none twice, as many as the limit at
-- most.
pub record IsValidAllocator (a : Allocator) : Type 0 where
  pub typed : a.next < 4_294_967_296
  pub distinct : NoRepeats a.active
  pub flow_ids : All IsFlowId a.active
  pub within : length a.active ≤ a.limit

-- A loop that finds no id has tried active ids only; an id that it finds is not active.
abbrev Found : ℕ → ℕ → List ℕ → Option ℕ × ℕ → Type 0
Found rounds next active (none, n) =
    (n < 4_294_967_296) × All (λ id. contains id active ≡ true) (candidates rounds next)
Found rounds next active (some id, n) =
    (n < 4_294_967_296) × IsFlowId id × (contains id active ≡ false)

Found-later :
    (rounds next : ℕ) (active : List ℕ) (result : Option ℕ × ℕ)
    → contains (fetch_id next).0 active ≡ true
    → Found rounds (fetch_id next).1 active result
    → Found (suc rounds) next active result
Found-later rounds next active (none, n) e f = (f.0, (e, f.1))
Found-later rounds next active (some id, n) e f = f

find_id-Found :
    (rounds next : ℕ) (active : List ℕ)
    → next < 4_294_967_296
    → Found rounds next active (find_id rounds next active)
find_id-Found zero next active h = (h, tt)
find_id-Found (suc rounds) next active h =
    let s = fetch_id-Steps next h in
    let nonzero : ((fetch_id next).0 == 0) ≡ false = ground (arith, s.positive) in
    elim (Bool-cases (contains (fetch_id next).0 active)) [
      | inl taken ↦
          rw (nonzero, taken)
            (Found-later rounds next active _ taken
              (find_id-Found rounds (fetch_id next).1 active s.typed))
      | inr free ↦ rw (nonzero, free) (s.typed, (s.positive, s.small), free)
    ]

length-candidates : (rounds next : ℕ) → length (candidates rounds next) ≡ rounds
length-candidates zero next = refl
length-candidates (suc rounds) next = ap suc (length-candidates rounds (fetch_id next).1)

-- An id that was not active, with which the allocator is sound.
abbrev pub IsFresh : Allocator → ℕ → ℕ → Type 0
IsFresh a id next =
    IsFlowId id
    × (contains id a.active ≡ false)
    × IsValidAllocator (record a { next = next; active = id ∷ a.active })

Found-some :
    (a : Allocator) (result : Option ℕ × ℕ)
    → IsValidAllocator a
    → a.limit < 4_294_967_295
    → length a.active < a.limit
    → Found (a.limit + 1) a.next a.active result
    → (id : ℕ) × (next : ℕ) × (result ≡ (some id, next)) × IsFresh a id next
Found-some a (none, n) v small below f =
    let rounds = a.limit + 1 in
    let distinct = candidates-NoRepeats rounds a.next v.typed (omega arith) in
    absurd (
      omega (
        arith,
        contained_length (candidates rounds a.next) a.active distinct f.1,
        length-candidates rounds a.next,
      ))
Found-some a (some id, n) v small below f = (
  id,
  n,
  refl,
  (
    f.1,
    f.2,
    record {
      typed = f.0;
      distinct = (f.2, v.distinct);
      flow_ids = (f.1, v.flow_ids);
      within = omega arith;
    },
  ),
)

leb-false : (a b : ℕ) → b < a → leb a b ≡ false
leb-false a b h = ground arith

allocate_found :
    (a : Allocator) (id next : ℕ)
    → length a.active < a.limit
    → find_id (a.limit + 1) a.next a.active ≡ (some id, next)
    → allocate a ≡ (ok id, record a { next = next; active = id ∷ a.active })
unfolding allocate
allocate_found a id next below found =
    rw
      (
        leb-false a.limit (length a.active) below,
        ap (λ (p : Option ℕ × ℕ). p.0) found,
        ap (λ (p : Option ℕ × ℕ). p.1) found,
      )
      refl

-- On a sound allocator with fewer active ids than its limit, which is below the number of flow
-- ids, `allocate` never fails: it gives a flow id that is not zero and was not active, this id
-- becomes active beside those that were, and the allocator stays sound.
pub allocate_lem :
    (a : Allocator)
    → IsValidAllocator a
    → a.limit < 4_294_967_295
    → length a.active < a.limit
    → (id : ℕ) × (next : ℕ) × (allocate a
        ≡ (ok id, record a { next = next; active = id ∷ a.active }))
      × IsFresh a id next
allocate_lem a v small below =
    let (id, next, found, fresh) =
      Found-some a (find_id (a.limit + 1) a.next a.active) v small below
        (find_id-Found (a.limit + 1) a.next a.active v.typed) in
    (id, next, allocate_found a id next below found, fresh)

All-without : (id : ℕ) (xs : List ℕ) → All IsFlowId xs → All IsFlowId (without id xs)
All-without id [] a = tt
All-without id (x ∷ xs) a = elim (Bool-cases (x == id)) [
  | inl h ↦ rw h a.1
  | inr h ↦ rw h (a.0, All-without id xs a.1)
]

released :
    (id : ℕ) (xs : List ℕ)
    → NoRepeats xs
    → (contains id (without id xs) ≡ false) × (length (without id xs) ≤ length xs)
released id [] d = (refl, omega arith)
released id (x ∷ xs) d = ground (arith, released id xs d.1)

-- The others stay.
contains-without :
    (id other : ℕ) (xs : List ℕ)
    → NoRepeats xs
    → contains other (without id xs) ≡ (if other == id then false else contains other xs)
contains-without id other [] d = ground arith
contains-without id other (x ∷ xs) d = elim (Bool-cases (other == id)) [
  | inl h ↦ let same : other ≡ id = (==_iff other id).0 h in rw (h, same) (released id (x ∷ xs) d).0
  | inr h ↦ ground (arith, h, contains-without id other xs d.1)
]

release-IsValidAllocator :
    (id : ℕ) (a : Allocator) → IsValidAllocator a → IsValidAllocator (release id a)
unfolding release
release-IsValidAllocator id a v = record {
  typed = v.typed;
  distinct = without-NoRepeats id a.active v.distinct;
  flow_ids = All-without id a.active v.flow_ids;
  within = omega (arith, v.within, (released id a.active v.distinct).1);
}

-- On a sound allocator whose limit is below the number of flow ids, let an active id be released.
-- Then the allocator is sound, the id is no longer active, every other id is active where it was,
-- and the next `allocate` does not fail, even where the limit was reached: it gives a fresh flow id,
-- which becomes active beside those that are left, and leaves the allocator sound.
pub release_lem :
    (id : ℕ) (a : Allocator)
    → IsValidAllocator a
    → a.limit < 4_294_967_295
    → contains id a.active ≡ true
    → IsValidAllocator (release id a)
      × ((other : ℕ)
          → contains other (release id a).active
            ≡ (if other == id then false else contains other a.active))
      × (new : ℕ) × (next : ℕ) × (allocate (release id a)
          ≡ (ok new, record (release id a) { next = next; active = new ∷ (release id a).active }))
      × IsFresh (release id a) new next
unfolding release
release_lem id a v small there =
    let valid = release-IsValidAllocator id a v in
    let less = length-without id a.active there in
    let (new, next, given, fresh) =
      allocate_lem (release id a) valid small (omega (arith, less, v.within)) in
    (valid, λ other. contains-without id other a.active v.distinct, new, next, given, fresh)

pub new_allocator-IsValidAllocator : (limit : ℕ) → IsValidAllocator (new_allocator limit)
unfolding new_allocator
new_allocator-IsValidAllocator limit = record {
  typed = omega arith;
  distinct = tt;
  flow_ids = tt;
  within = omega arith;
}
