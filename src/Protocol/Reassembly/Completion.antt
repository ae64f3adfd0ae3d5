-- ===== src/Protocol/Reassembly/Completion.antt =====
-- src/protocol/datagram.rs, `push_with` for the piece that a packet lacks.
use nowhere.Common.{
  ℕ, ◌+◌, ◌≡◌, ◌≤◌, ◌<◌, ap, ◌∙◌, List, [], ◌∷◌, Bool, false, not, ◌==◌, ltb, ◌||◌, Option, none,
  some, length, get_or, arith, length-append,
}
use nowhere.Protocol.Datagram.{UdpFragment}
use nowhere.Protocol.Reassembly.{
  Key, Slot, Reassembler, complete, saturating_add, join_fragments, get_slot, expire, finish,
  add_fragment, push_existing, push_checked, push_with, is_malformed,
}
use nowhere.Protocol.Reassembly.State.{held_bytes, IsPartial, IsValid}
use nowhere.Protocol.Reassembly.Slots.{get_slot-AllSlots}
use nowhere.Protocol.Reassembly.Partial.{
  filled_slot, filled_slot_counts, set_counts, join_fragments_all, well_formed,
}
use nowhere.Protocol.Reassembly.Expiry.{expire-IsValid}
use nowhere.Protocol.Reassembly.Delivery.{join, Matches, Matches-set, Matches-join, IsPiece}

Matches-bytes :
    (xs : List (Option (List ℕ))) (pieces : List (List ℕ))
    → Matches xs pieces
    → held_bytes xs ≤ length (join pieces)
Matches-bytes [] [] m = omega arith
Matches-bytes [] (p ∷ pieces) m = absurd m
Matches-bytes (none ∷ xs) [] m = absurd m
Matches-bytes (some b ∷ xs) [] m = absurd m
Matches-bytes (none ∷ xs) (p ∷ pieces) m =
    omega (arith, Matches-bytes xs pieces m, length-append p (join pieces))
Matches-bytes (some b ∷ xs) (p ∷ pieces) m =
    omega (arith, Matches-bytes xs pieces m.1, length-append p (join pieces), ap length m.0)

ltb-false : (a b : ℕ) → b ≤ a → ltb a b ≡ false
ltb-false a b h = ground arith

same_slot_fields : (a b c d : ℕ) → a ≡ b → c ≡ d → (not (a == b) || not (c == d)) ≡ false
same_slot_fields a b c d e h = ground arith

module _ {R : Type 0} where
  -- The slot lacks one piece, which the fragment brings.
  pub record IsLast (packet : List (List ℕ)) (slot : Slot R) (f : UdpFragment) : Type 0 where
    pub matches : Matches slot.fragments packet
    pub piece : IsPiece packet f
    pub same_count : slot.fragment_count ≡ f.fragment_count
    pub same_len : slot.total_len ≡ f.total_len
    pub whole : length (join packet) ≡ f.total_len
    pub free : get_or slot.fragments f.fragment_index none ≡ none
    pub one_missing : slot.received + 1 ≡ slot.fragment_count

module _ {R : Type 0} (packet : List (List ℕ)) (k : Key) where
  finish-complete :
      (slot : Slot R) (evicted : Bool) (r : Reassembler R) (payload : List ℕ)
      → slot.retained ≡ slot.total_len
      → join_fragments slot.fragments ≡ some payload
      → (finish k slot evicted r).1 ≡ complete payload slot.reservation evicted
  unfolding finish
  finish-complete slot evicted r payload e j = ground (arith, j)

  add_fragment-complete :
      (slot : Slot R) (f : UdpFragment) (evicted : Bool) (r : Reassembler R)
      → IsPartial slot
      → f.fragment_index < f.fragment_count
      → IsLast packet slot f
      → (add_fragment k slot f evicted r).1 ≡ complete (join packet) slot.reservation evicted
  unfolding add_fragment
  add_fragment-complete slot f evicted r p index l =
      let places = p.places in
      let new = filled_slot slot f in
      let inside : f.fragment_index < slot.fragment_count = omega (arith, index, l.same_count) in
      let filled =
        Matches-set slot.fragments packet f.fragment_index f.payload l.piece.1 l.matches in
      let (more, held) =
        set_counts slot.fragments f.fragment_index f.payload (omega (arith, inside, places))
          l.free in
      let bound = Matches-bytes new.fragments packet filled in
      let fits : saturating_add slot.retained (length f.payload) ≤ slot.total_len =
        omega (arith, p.measured, l.whole, l.same_len) in
      let (size, counted, measured) = filled_slot_counts slot f p inside l.free fits in
      let (payload, joined, bytes) =
        join_fragments_all new.fragments (omega (arith, l.one_missing, counted, size)) in
      let same = Matches-join new.fragments packet payload filled joined in
      let exact : new.retained ≡ slot.total_len =
        omega (arith, measured, bytes, ap length same, l.whole, l.same_len) in
      rw
        (
          ltb-false slot.total_len new.retained fits,
          ltb-false new.received slot.fragment_count (omega (arith, l.one_missing)),
        )
        (finish-complete new evicted _ payload exact joined
          ∙ ap (λ p. complete p slot.reservation evicted) same)

  push_existing-complete :
      (slot : Slot R) (f : UdpFragment) (evicted : Bool) (r : Reassembler R)
      → IsPartial slot
      → f.fragment_index < f.fragment_count
      → IsLast packet slot f
      → (push_existing k slot f evicted r).1 ≡ complete (join packet) slot.reservation evicted
  unfolding push_existing
  push_existing-complete slot f evicted r p index l =
      rw
        (
          same_slot_fields slot.fragment_count f.fragment_count slot.total_len f.total_len
              l.same_count l.same_len,
          l.free,
        )
        (add_fragment-complete slot f evicted r p index l)

module _ {R : Type 0} (instant_max : ℕ) (packet : List (List ℕ)) where
  push_checked-complete :
      (k : Key) (flow_id : ℕ) (f : UdpFragment) (now : ℕ) (reserve : ℕ → Option R) (evicted : Bool)
      (r : Reassembler R) (slot : Slot R)
      → is_malformed flow_id f ≡ false
      → IsValid instant_max r
      → get_slot k r.slots ≡ some slot
      → IsLast packet slot f
      → (push_checked instant_max k f now reserve evicted r).1
        ≡ complete (join packet) slot.reservation evicted
  unfolding push_checked
  push_checked-complete k flow_id f now reserve evicted r slot e v there l =
      rw (push_checked, there)
        (push_existing-complete packet k slot f evicted r
          (get_slot-AllSlots IsPartial k r.slots slot v.partials there) (well_formed flow_id f e).1
          l)

  -- On a sound reassembler, where the key of a well-formed fragment has a slot after expiry that
  -- lacks one piece of a packet, and the fragment is that piece, the push completes: the outcome is
  -- the whole packet, with the slot's reservation.
  pub push_with-complete :
      (flow_id : ℕ) (f : UdpFragment) (now : ℕ) (reserve : ℕ → Option R) (r : Reassembler R)
      (slot : Slot R)
      → is_malformed flow_id f ≡ false
      → IsValid instant_max r
      → get_slot
          (record { flow_id = flow_id; packet_id = f.packet_id })
          (expire instant_max now r).0.slots
        ≡ some slot
      → IsLast packet slot f
      → (push_with instant_max flow_id f now reserve r).1
        ≡ complete (join packet) slot.reservation (expire instant_max now r).1
  unfolding push_with
  push_with-complete flow_id f now reserve r slot e v there l = rw e (
      push_checked-complete (record { flow_id = flow_id; packet_id = f.packet_id }) flow_id f now
        reserve (expire instant_max now r).1 (expire instant_max now r).0 slot e
        (expire-IsValid instant_max now r v) there l)
