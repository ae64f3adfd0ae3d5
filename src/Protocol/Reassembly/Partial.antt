-- ===== src/Protocol/Reassembly/Partial.antt =====
-- src/protocol/datagram.rs, the slots of `push_with`: the counters of the slot that a first
-- fragment opens, and of one that a further fragment fills.
use nowhere.Common.{
  ℕ, suc, ◌+◌, ◌-◌, ◌≡◌, ◌≤◌, ◌<◌, refl, ap, ◌∙◌, List, [], ◌∷◌, false, Option, none, some, length,
  set, replicate, get_or, arith, length-replicate, zero, length-append, ◌++◌,
}
use nowhere.Protocol.Datagram.{UdpFragment, validate_fragment_metadata}
use nowhere.Protocol.Reassembly.{Slot, saturating_add, is_malformed, first_slot, join_fragments}
use nowhere.Protocol.Reassembly.State.{present, held_bytes, IsPartial}

pub set_counts :
    (xs : List (Option (List ℕ))) (i : ℕ) (b : List ℕ)
    → i < length xs
    → get_or xs i none ≡ none
    → (present (set xs i (some b)) ≡ suc (present xs))
      × (held_bytes (set xs i (some b)) ≡ length b + held_bytes xs)
set_counts [] i b h e = absurd (omega arith)
set_counts (none ∷ xs) zero b h e = (refl, refl)
set_counts (some a ∷ xs) zero b h e = cc
set_counts (none ∷ xs) (suc i) b h e = set_counts xs i b (omega arith) e
set_counts (some a ∷ xs) (suc i) b h e = omega (arith, set_counts xs i b (omega arith) e)

pub replicate_counts :
    (n i : ℕ)
    → (present (replicate n none) ≡ 0)
      × (held_bytes (replicate n none) ≡ 0)
      × (get_or (replicate {A = Option (List ℕ)} n none) i none ≡ none)
replicate_counts zero i = (refl, refl, refl)
replicate_counts (suc n) zero = let (a, b, c) = replicate_counts n 0 in (a, b, refl)
replicate_counts (suc n) (suc i) = replicate_counts n i

-- What the first test of `push_with` lets through.
pub well_formed :
    (flow_id : ℕ) (f : UdpFragment)
    → is_malformed flow_id f ≡ false
    → (2 ≤ f.fragment_count)
      × (f.fragment_index < f.fragment_count)
      × (1 ≤ length f.payload)
      × (saturating_add (length f.payload) (f.fragment_count - 1) ≤ f.total_len)
unfolding is_malformed validate_fragment_metadata
well_formed flow_id f e = ground arith

length-set :
    (xs : List (Option (List ℕ))) (i : ℕ) (v : Option (List ℕ)) → length (set xs i v) ≡ length xs
length-set [] i v = refl
length-set (x ∷ xs) zero v = refl
length-set (x ∷ xs) (suc i) v = ap suc (length-set xs i v)

module _ {R : Type 0} where
  pub first_slot-IsPartial :
      (flow_id now : ℕ) (f : UdpFragment) (reservation : R)
      → is_malformed flow_id f ≡ false
      → f.total_len < 65_536
      → IsPartial (first_slot now f reservation)
  first_slot-IsPartial flow_id now f reservation e h =
      let (two, inside, filled, fits) = well_formed flow_id f e in
      let empty = replicate {A = Option (List ℕ)} f.fragment_count none in
      let (none_here, none_held, free) = replicate_counts f.fragment_count f.fragment_index in
      let places : length empty ≡ f.fragment_count = length-replicate f.fragment_count none in
      let (counted, measured) = set_counts empty f.fragment_index f.payload (omega arith) free in
      record {
        places = length-set empty f.fragment_index (some f.payload) ∙ places;
        counted = omega arith;
        some_here = omega arith;
        some_missing = omega arith;
        measured = omega arith;
        within = omega arith;
        typed = h;
      }

  -- The slot that `add_fragment` writes back.
  abbrev pub filled_slot : Slot R → UdpFragment → Slot R
  filled_slot slot f = record slot {
    fragments = set slot.fragments f.fragment_index (some f.payload);
    received = slot.received + 1;
    retained = saturating_add slot.retained (length f.payload);
  }

  -- All but the bound on `received`, which a complete slot does not have.
  pub filled_slot_counts :
      (slot : Slot R) (f : UdpFragment)
      → IsPartial slot
      → f.fragment_index < slot.fragment_count
      → get_or slot.fragments f.fragment_index none ≡ none
      → saturating_add slot.retained (length f.payload) ≤ slot.total_len
      → (length (filled_slot slot f).fragments ≡ slot.fragment_count)
        × (slot.received + 1 ≡ present (filled_slot slot f).fragments)
        × (saturating_add slot.retained (length f.payload)
            ≡ held_bytes (filled_slot slot f).fragments)
  filled_slot_counts slot f p inside free fits =
      let places = p.places in
      let typed = p.typed in
      let (counted, measured) =
        set_counts slot.fragments f.fragment_index f.payload (omega arith) free in
      (
        length-set slot.fragments f.fragment_index (some f.payload) ∙ places,
        omega (arith, p.counted),
        omega (arith, p.measured),
      )

  pub filled_slot-IsPartial :
      (slot : Slot R) (f : UdpFragment)
      → IsPartial slot
      → f.fragment_index < slot.fragment_count
      → get_or slot.fragments f.fragment_index none ≡ none
      → saturating_add slot.retained (length f.payload) ≤ slot.total_len
      → slot.received + 1 < slot.fragment_count
      → IsPartial (filled_slot slot f)
  filled_slot-IsPartial slot f p inside free fits more =
      let (places, counted, measured) = filled_slot_counts slot f p inside free fits in
      record {
        places = places;
        counted = counted;
        some_here = omega arith;
        some_missing = more;
        measured = measured;
        within = fits;
        typed = p.typed;
      }

-- Fragments that are all there can be put together, and their bytes are those held.
pub join_fragments_all :
    (xs : List (Option (List ℕ)))
    → present xs ≡ length xs
    → (payload : List ℕ) × (join_fragments xs ≡ some payload) × (length payload ≡ held_bytes xs)
join_fragments_all [] e = ([], refl, refl)
join_fragments_all (none ∷ xs) e = absurd (present_below xs (omega arith))
  where
    present_below : (xs : List (Option (List ℕ))) → length xs < present xs → ⊥
    present_below [] h = omega arith
    present_below (none ∷ xs) h = present_below xs (omega arith)
    present_below (some b ∷ xs) h = present_below xs (omega arith)
join_fragments_all (some b ∷ xs) e =
    let (payload, joined, size) = join_fragments_all xs (omega arith) in
    (b ++ payload, rw joined refl, length-append b payload ∙ ap (λ (k : ℕ). length b + k) size)
