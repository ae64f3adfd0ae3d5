-- ===== src/Vector/FlowId/Tests.antt =====
-- Runs of the allocator: a limit of 2, the counter about to wrap.
use nowhere.Common.{ℕ, ◌≡◌, refl, ◌==◌, if◌then◌else◌, [], ◌∷◌, false, ok, arith}
use nowhere.Vector.FlowId.{Allocator, contains, allocate, release}
use nowhere.Vector.FlowId.Allocation.{IsValidAllocator, IsFresh, allocate_lem, release_lem}

abbrev wrapping : Allocator
wrapping = record { next = 0; active = 1 ∷ []; limit = 2 }

wrapping-IsValidAllocator : IsValidAllocator wrapping
wrapping-IsValidAllocator = record {
  typed = omega arith;
  distinct = (refl, tt);
  flow_ids = ((omega arith, omega arith), tt);
  within = omega arith;
}

allocate_example :
    (id : ℕ) × (next : ℕ) × (allocate wrapping
      ≡ (ok id, record wrapping { next = next; active = id ∷ wrapping.active }))
    × IsFresh wrapping id next
allocate_example = allocate_lem wrapping wrapping-IsValidAllocator (omega arith) (omega arith)

-- The counter is past zero and the active 1.
allocated : allocate wrapping ≡ (ok 2, record { next = 3; active = 2 ∷ 1 ∷ []; limit = 2 })
unfolding allocate
allocated = refl

-- The limit is reached, and one of the two ids is released.
abbrev full : Allocator
full = record { next = 3; active = 2 ∷ 1 ∷ []; limit = 2 }

full-IsValidAllocator : IsValidAllocator full
full-IsValidAllocator = record {
  typed = omega arith;
  distinct = (refl, (refl, tt));
  flow_ids = ((omega arith, omega arith), ((omega arith, omega arith), tt));
  within = omega arith;
}

release_example :
    IsValidAllocator (release 1 full)
    × ((other : ℕ)
        → contains other (release 1 full).active
          ≡ (if other == 1 then false else contains other full.active))
    × (new : ℕ) × (next : ℕ) × (allocate (release 1 full)
        ≡ (ok new, record (release 1 full) { next = next; active = new ∷ (release 1 full).active }))
    × IsFresh (release 1 full) new next
release_example = release_lem 1 full full-IsValidAllocator (omega arith) refl
