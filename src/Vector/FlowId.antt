-- ===== src/Vector/FlowId.antt =====
-- src/vector/flow_id.rs: `FlowIdAllocator`. The atomic counter and the set are only changed under
-- the lock, so an allocator is a record; the set is a list without repeats. A `FlowLease` is its
-- id, and dropping it is `release`.
pub mod Candidates
pub mod Allocation
mod Tests
use nowhere.Common.{
  ℕ, zero, suc, ◌+◌, ◌%◌, ◌^◌, List, [], ◌∷◌, Option, none, some, Bool, true, false, not, ◌==◌, leb,
  ◌&&◌, if◌then◌else◌, length, Result, ok, err,
}

pub data FlowIdError : Type 0 where
  limit_reached no_reusable_id : FlowIdError

pub record Allocator : Type 0 where
  pub next : ℕ
  pub active : List ℕ
  pub limit : ℕ

pub new_allocator : ℕ → Allocator
new_allocator limit = record { next = 1; active = []; limit = limit }

abbrev pub contains : ℕ → List ℕ → Bool
contains id [] = false
contains id (x ∷ xs) = if x == id then true else contains id xs

-- The removal from the set.
abbrev pub without : ℕ → List ℕ → List ℕ
without id [] = []
without id (x ∷ xs) = if x == id then xs else x ∷ without id xs

-- What `fetch_add` leaves in the counter.
abbrev pub wrapping_next : ℕ → ℕ
wrapping_next n = (n + 1) % 4_294_967_296

-- The id of one round of the loop, and the counter behind it: zero is fetched past.
abbrev pub fetch_id : ℕ → ℕ × ℕ
fetch_id n =
    if n == 0 then (wrapping_next n, wrapping_next (wrapping_next n)) else (n, wrapping_next n)

-- The loop of `allocate`, for the rounds that are left: the id, if one is found, and the counter.
abbrev pub find_id : ℕ → ℕ → List ℕ → Option ℕ × ℕ
find_id zero next active = (none, next)
find_id (suc rounds) next active =
    let (id, next') = fetch_id next in
    let rest = find_id rounds next' active in
    if not (id == 0) && not (contains id active) then (some id, next') else rest

pub allocate : Allocator → Result FlowIdError ℕ × Allocator
allocate a =
    if leb a.limit (length a.active)
    then (err limit_reached, a)
    else (let (found, next) = find_id (a.limit + 1) a.next a.active in
        elim found [
          | none ↦ (err no_reusable_id, record a { next = next })
          | some id ↦ (ok id, record a { next = next; active = id ∷ a.active })
        ])

pub release : ℕ → Allocator → Allocator
release id a = record a { active = without id a.active }
