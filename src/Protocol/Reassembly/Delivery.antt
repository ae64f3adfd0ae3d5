-- ===== src/Protocol/Reassembly/Delivery.antt =====
-- src/protocol/datagram.rs, `push_with` for fragments that are pieces of their keys' packets: what
-- the slots hold, and what comes out.
use nowhere.Common.{
  ℕ, suc, zero, ◌+◌, ◌≡◌, sym, subst, List, [], ◌∷◌, ◌++◌, Bool, not, ◌==◌, ltb, leb, ◌||◌, Option,
  none, some, Option-cases, length, set, replicate, get_or, inl, inr, Bool-cases, arith,
}
use nowhere.Protocol.Datagram.{UdpFragment}
use nowhere.Protocol.Reassembly.{
  Key, Slot, Reassembler, Outcome, pending, complete, dropped, saturating_add, same_bytes,
  join_fragments, same_key, get_slot, delete_slot, put_slot, fresh_slots, is_fresh, remove_slot,
  oldest, sweep, expire_at, expire, finish, add_fragment, push_existing, make_room, open_slot,
  push_new, push_checked, push_with, is_malformed,
}
use nowhere.Protocol.Reassembly.Sums.{same_key_eq}
use nowhere.Protocol.Reassembly.Partial.{filled_slot}

abbrev pub join : List (List ℕ) → List ℕ
join [] = []
join (piece ∷ pieces) = piece ++ join pieces

-- The fragments that are there are the pieces at their places.
abbrev pub Matches : List (Option (List ℕ)) → List (List ℕ) → Type 0
Matches [] [] = Unit {0}
Matches (none ∷ xs) (piece ∷ pieces) = Matches xs pieces
Matches (some bytes ∷ xs) (piece ∷ pieces) = (bytes ≡ piece) × Matches xs pieces
Matches _ _ = ⊥

Matches-replicate : (pieces : List (List ℕ)) → Matches (replicate (length pieces) none) pieces
Matches-replicate [] = tt
Matches-replicate (piece ∷ pieces) = Matches-replicate pieces

pub Matches-set :
    (xs : List (Option (List ℕ))) (pieces : List (List ℕ)) (i : ℕ) (bytes : List ℕ)
    → get_or pieces i [] ≡ bytes
    → Matches xs pieces
    → Matches (set xs i (some bytes)) pieces
Matches-set [] [] i bytes e m = tt
Matches-set [] (p ∷ pieces) i bytes e m = m
Matches-set (none ∷ xs) [] i bytes e m = absurd m
Matches-set (some b ∷ xs) [] i bytes e m = absurd m
Matches-set (none ∷ xs) (p ∷ pieces) zero bytes e m = (sym e, m)
Matches-set (some b ∷ xs) (p ∷ pieces) zero bytes e m = (sym e, m.1)
Matches-set (none ∷ xs) (p ∷ pieces) (suc i) bytes e m = Matches-set xs pieces i bytes e m
Matches-set (some b ∷ xs) (p ∷ pieces) (suc i) bytes e m =
    (m.0, Matches-set xs pieces i bytes e m.1)

pub Matches-join :
    (xs : List (Option (List ℕ))) (pieces : List (List ℕ)) (payload : List ℕ)
    → Matches xs pieces
    → join_fragments xs ≡ some payload
    → payload ≡ join pieces
Matches-join [] [] payload m e = cc
Matches-join [] (p ∷ pieces) payload m e = absurd m
Matches-join (none ∷ xs) pieces payload m e = cc
Matches-join (some b ∷ xs) [] payload m e = absurd m
Matches-join (some b ∷ xs) (p ∷ pieces) payload m e = elim (Option-cases (join_fragments xs)) [
  | inl h ↦ absurd (ground arith)
  | inr (tail, h) ↦ let rest = Matches-join xs pieces tail m.1 h in ground (arith, m.0)
]

-- The fragment is a piece of the packet.
abbrev pub IsPiece : List (List ℕ) → UdpFragment → Type 0
IsPiece packet f =
    (f.fragment_count ≡ length packet) × (get_or packet f.fragment_index [] ≡ f.payload)

-- A packet that comes out is the packet.
abbrev pub Delivers : {R : Type 0} → List (List ℕ) → Outcome R → Type 0
Delivers packet (pending evicted) = Unit {0}
Delivers packet (complete payload reservation evicted) = payload ≡ join packet
Delivers packet (dropped reason) = Unit {0}

module _ {R : Type 0} (pieces : Key → List (List ℕ)) where
  -- Every slot holds pieces of the packet of its key.
  abbrev pub Holds : List (Key × Slot R) → Type 0
  Holds [] = Unit {0}
  Holds ((k, slot) ∷ slots) = Matches slot.fragments (pieces k) × Holds slots

  get_slot-Holds :
      (k : Key) (slots : List (Key × Slot R)) (slot : Slot R)
      → Holds slots
      → get_slot k slots ≡ some slot
      → Matches slot.fragments (pieces k)
  get_slot-Holds k [] slot a e = cc
  get_slot-Holds k ((j, s) ∷ slots) slot a e = elim (Bool-cases (same_key j k)) [
    | inl h ↦
        subst (λ (s : Slot R). Matches s.fragments (pieces k)) {x = s} {y = slot} (ground arith)
          (subst (λ j. Matches s.fragments (pieces j)) (same_key_eq j k h) a.0)
    | inr h ↦ get_slot-Holds k slots slot a.1 (ground arith)
  ]

  delete_slot-Holds :
      (k : Key) (slots : List (Key × Slot R)) → Holds slots → Holds (delete_slot k slots)
  delete_slot-Holds k [] a = tt
  delete_slot-Holds k ((j, s) ∷ slots) a = elim (Bool-cases (same_key j k)) [
    | inl h ↦ rw h a.1
    | inr h ↦ rw h (a.0, delete_slot-Holds k slots a.1)
  ]

  put_slot-Holds :
      (k : Key) (new : Slot R) (slots : List (Key × Slot R))
      → Matches new.fragments (pieces k)
      → Holds slots
      → Holds (put_slot k new slots)
  put_slot-Holds k new [] p a = tt
  put_slot-Holds k new ((j, s) ∷ slots) p a = elim (Bool-cases (same_key j k)) [
    | inl h ↦ rw h (subst (λ i. Matches new.fragments (pieces i)) (sym (same_key_eq j k h)) p, a.1)
    | inr h ↦ rw h (a.0, put_slot-Holds k new slots p a.1)
  ]

  fresh_slots-Holds :
      (ttl now : ℕ) (slots : List (Key × Slot R)) → Holds slots → Holds (fresh_slots ttl now slots)
  fresh_slots-Holds ttl now [] a = tt
  fresh_slots-Holds ttl now ((j, s) ∷ slots) a = elim (Bool-cases (is_fresh ttl now s)) [
    | inl h ↦ rw h (a.0, fresh_slots-Holds ttl now slots a.1)
    | inr h ↦ rw h (fresh_slots-Holds ttl now slots a.1)
  ]

  -- The state still holds pieces only, and what came out is the packet.
  abbrev pub Keeps : Key → Reassembler R × Outcome R → Type 0
  Keeps k (r, outcome) = Holds r.slots × Delivers (pieces k) outcome

  remove_slot-Holds :
      (k : Key) (slot : Slot R) (r : Reassembler R)
      → Holds r.slots
      → Holds (remove_slot k slot r).slots
  unfolding remove_slot
  remove_slot-Holds k slot r a = delete_slot-Holds k r.slots a

  finish-Keeps :
      (k : Key) (slot : Slot R) (evicted : Bool) (r : Reassembler R)
      → Matches slot.fragments (pieces k)
      → Holds r.slots
      → Keeps k (finish k slot evicted r)
  unfolding finish
  finish-Keeps k slot evicted r m a =
      let gone = remove_slot-Holds k slot r a in
      elim (Bool-cases (not (slot.retained == slot.total_len))) [
        | inl h ↦ rw h (gone, tt)
        | inr h ↦ rw h (elim (Option-cases (join_fragments slot.fragments)) [
          | inl e ↦ rw e (gone, tt)
          | inr (payload, e) ↦ rw e (gone, Matches-join slot.fragments (pieces k) payload m e)
        ])
      ]

  add_fragment-Keeps :
      (k : Key) (slot : Slot R) (f : UdpFragment) (evicted : Bool) (r : Reassembler R)
      → Matches slot.fragments (pieces k)
      → IsPiece (pieces k) f
      → Holds r.slots
      → Keeps k (add_fragment k slot f evicted r)
  unfolding add_fragment
  add_fragment-Keeps k slot f evicted r m piece a =
      let filled = Matches-set slot.fragments (pieces k) f.fragment_index f.payload piece.1 m in
      let put = put_slot-Holds k (filled_slot slot f) r.slots filled a in
      elim (Bool-cases (ltb slot.total_len (saturating_add slot.retained (length f.payload)))) [
        | inl h ↦ rw h (remove_slot-Holds k slot r a, tt)
        | inr h ↦ rw h (elim (Bool-cases (ltb (slot.received + 1) slot.fragment_count)) [
          | inl more ↦ rw more (put, tt)
          | inr done ↦ rw done (
              finish-Keeps k (filled_slot slot f) evicted
                (record r { slots = put_slot k (filled_slot slot f) r.slots }) filled put)
        ])
      ]

  push_existing-Keeps :
      (k : Key) (slot : Slot R) (f : UdpFragment) (evicted : Bool) (r : Reassembler R)
      → Matches slot.fragments (pieces k)
      → IsPiece (pieces k) f
      → Holds r.slots
      → Keeps k (push_existing k slot f evicted r)
  unfolding push_existing
  push_existing-Keeps k slot f evicted r m piece a =
      let gone = remove_slot-Holds k slot r a in
      elim (Bool-cases
        (not (slot.fragment_count == f.fragment_count) || not (slot.total_len == f.total_len))) [
          | inl h ↦ rw h (gone, tt)
          | inr h ↦ rw h (elim (Option-cases (get_or slot.fragments f.fragment_index none)) [
            | inl free ↦ rw free (add_fragment-Keeps k slot f evicted r m piece a)
            | inr (existing, there) ↦ rw there (elim (Bool-cases (same_bytes existing f.payload)) [
              | inl same ↦ rw same (a, tt)
              | inr other ↦ rw other (gone, tt)
            ])
          ])
        ]

  make_room-Holds :
      (evicted : Bool) (r : Reassembler R) → Holds r.slots → Holds (make_room evicted r).0.slots
  unfolding make_room
  make_room-Holds evicted r a = elim (Bool-cases (leb r.config.max_slots (length r.slots))) [
    | inl full ↦ rw full (elim (Option-cases (oldest r.slots)) [
      | inl e ↦ rw e a
      | inr ((j, slot), e) ↦ rw e (remove_slot-Holds j slot r a)
    ])
    | inr free ↦ rw free a
  ]

  module _ (instant_max : ℕ) where
    expire-Holds :
        (now : ℕ) (next : Option ℕ) (r : Reassembler R)
        → Holds r.slots
        → Holds (expire_at instant_max now next r).0.slots
    unfolding expire_at sweep
    expire-Holds now none r a = a
    expire-Holds now (some next) r a = elim (Bool-cases (leb now next)) [
      | inl h ↦ rw h a
      | inr h ↦ rw h (fresh_slots-Holds r.config.ttl now r.slots a)
    ]

    open_slot-Keeps :
        (k : Key) (f : UdpFragment) (now : ℕ) (reserve : ℕ → Option R) (evicted : Bool)
        (r : Reassembler R)
        → IsPiece (pieces k) f
        → Holds r.slots
        → Keeps k (open_slot instant_max k f now reserve evicted r)
    unfolding open_slot
    open_slot-Keeps k f now reserve evicted r piece a =
        let empty : Matches (replicate f.fragment_count none) (pieces k) =
          rw (piece.0) (Matches-replicate (pieces k)) in
        elim (Bool-cases (ltb r.config.max_bytes (saturating_add r.reserved_bytes f.total_len))) [
          | inl h ↦ rw h (a, tt)
          | inr h ↦ rw h (elim (Option-cases (reserve f.total_len)) [
            | inl refused ↦ rw refused (a, tt)
            | inr (reservation, granted) ↦
                rw granted
                  ((Matches-set _ (pieces k) f.fragment_index f.payload piece.1 empty, a), tt)
          ])
        ]

    push_new-Keeps :
        (k : Key) (f : UdpFragment) (now : ℕ) (reserve : ℕ → Option R) (evicted : Bool)
        (r : Reassembler R)
        → IsPiece (pieces k) f
        → Holds r.slots
        → Keeps k (push_new instant_max k f now reserve evicted r)
    unfolding push_new
    push_new-Keeps k f now reserve evicted r piece a =
        elim (Bool-cases (r.config.max_slots == 0 || ltb r.config.max_bytes f.total_len)) [
          | inl h ↦ rw h (a, tt)
          | inr h ↦ rw h (
              open_slot-Keeps k f now reserve (make_room evicted r).1 (make_room evicted r).0 piece
                (make_room-Holds evicted r a))
        ]

    push_checked-Keeps :
        (k : Key) (f : UdpFragment) (now : ℕ) (reserve : ℕ → Option R) (evicted : Bool)
        (r : Reassembler R)
        → IsPiece (pieces k) f
        → Holds r.slots
        → Keeps k (push_checked instant_max k f now reserve evicted r)
    unfolding push_checked
    push_checked-Keeps k f now reserve evicted r piece a =
        elim (Option-cases (get_slot k r.slots)) [
          | inl absent ↦
              rw (push_checked, absent) (push_new-Keeps k f now reserve evicted r piece a)
          | inr (slot, there) ↦
              rw (push_checked, there)
                (push_existing-Keeps k slot f evicted r (get_slot-Holds k r.slots slot a there)
                  piece a)
        ]

    -- Let every key have a packet, given by its pieces. Where the slots hold only pieces of their
    -- keys' packets, and the fragment that is pushed is the piece of its key's packet at its
    -- index, then the slots hold only such pieces afterwards, and a payload that this push
    -- completes is the whole packet of the key, whatever came before and in whatever order.
    pub push_with-Keeps :
        (flow_id : ℕ) (f : UdpFragment) (now : ℕ) (reserve : ℕ → Option R) (r : Reassembler R)
        → IsPiece (pieces (record { flow_id = flow_id; packet_id = f.packet_id })) f
        → Holds r.slots
        → Keeps
            (record { flow_id = flow_id; packet_id = f.packet_id })
            (push_with instant_max flow_id f now reserve r)
    unfolding push_with expire
    push_with-Keeps flow_id f now reserve r piece a = elim (Bool-cases (is_malformed flow_id f)) [
      | inl h ↦ rw h (a, tt)
      | inr h ↦ rw h (
          push_checked-Keeps (record { flow_id = flow_id; packet_id = f.packet_id }) f now reserve
            (expire instant_max now r).1 (expire instant_max now r).0 piece
            (expire-Holds now r.next_expiry r a))
    ]
