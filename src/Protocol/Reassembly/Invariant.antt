-- ===== src/Protocol/Reassembly/Invariant.antt =====
-- src/protocol/datagram.rs: the operations of `DatagramReassembler` on a sound state
-- (`Reassembly.State`).
use nowhere.Common.{
  ℕ, ◌+◌, ◌≡◌, ◌≤◌, ◌<◌, refl, sym, ◌∙◌, subst, List, [], ◌∷◌, Bool, false, not, ◌==◌, ltb, leb,
  ◌||◌, if◌then◌else◌, Option, none, some, Option-cases, length, get_or, is_empty, inl, inr,
  Bool-cases, leb→le, ltb→lt, arith,
}
use nowhere.Protocol.Datagram.{UdpFragment}
use nowhere.Protocol.Reassembly.{
  ReassemblyConfig, Key, Slot, Reassembler, usize_max, saturating_add, same_bytes, get_slot,
  delete_slot, put_slot, new_reassembler, remove_slot, remove_flow, clear, expire, finish,
  add_fragment, push_existing, make_room, open_slot, push_new, push_checked, push_with,
  is_malformed, checked_add,
}
use nowhere.Protocol.Reassembly.State.{DueBy, IsPartial, AllSlots, IsValid}
use nowhere.Protocol.Reassembly.Sums.{
  delete_slot_absent, delete_slot_sums, put_slot_sums, without_flow_sums, delete_slot-Distinct,
  put_slot-Distinct, without_flow-Distinct,
}
use nowhere.Protocol.Reassembly.Slots.{
  get_slot-AllSlots, delete_slot-AllSlots, put_slot-AllSlots, without_flow-AllSlots, AllSlots-map,
  oldest-get_slot, oldest-some,
}
use nowhere.Protocol.Reassembly.Partial.{
  well_formed, first_slot-IsPartial, filled_slot, filled_slot-IsPartial,
}
use nowhere.Protocol.Reassembly.Expiry.{
  DueBy-new_expiry, DueBy-new_expiry_self, expire-IsValid, expire_config,
}

module _ {R : Type 0} where
  -- The next expiry is forgotten only where no slot is left.
  due_reset :
      (P : Option ℕ → Slot R → Type 0) (next : Option ℕ) (slots : List (Key × Slot R))
      → AllSlots (P next) slots
      → AllSlots (P (if is_empty slots then none else next)) slots
  due_reset P next [] a = tt
  due_reset P next (x ∷ slots) a = a

module _ {R : Type 0} (instant_max : ℕ) where
  pub new_reassembler-IsValid :
      (config : ReassemblyConfig) → IsValid instant_max (new_reassembler {R = R} config)
  unfolding new_reassembler
  new_reassembler-IsValid config = record {
    reserved = refl;
    bounded = omega arith;
    room = omega arith;
    distinct = tt;
    partials = tt;
    due = tt;
  }

  pub clear-IsValid : (r : Reassembler R) → IsValid instant_max (clear r)
  unfolding clear
  clear-IsValid r = record {
    reserved = refl;
    bounded = omega arith;
    room = omega arith;
    distinct = tt;
    partials = tt;
    due = tt;
  }

  -- Removing a flow from a sound reassembler leaves it sound: the bytes still reserved are those of
  -- the slots that stay.
  pub remove_flow-IsValid :
      (flow_id : ℕ) (r : Reassembler R)
      → IsValid instant_max r
      → IsValid instant_max (remove_flow flow_id r)
  unfolding remove_flow
  remove_flow-IsValid flow_id r v =
      let (bytes, count) = without_flow_sums flow_id r.slots in
      record {
        reserved = omega (arith, v.reserved);
        bounded = omega (arith, v.bounded);
        room = omega (arith, v.room);
        distinct = without_flow-Distinct flow_id r.slots v.distinct;
        partials = without_flow-AllSlots _ flow_id r.slots v.partials;
        due =
            due_reset (λ n slot. DueBy n (checked_add instant_max slot.created_at r.config.ttl))
              r.next_expiry _ (without_flow-AllSlots _ flow_id r.slots v.due);
      }

  pub remove_slot-IsValid :
      (k : Key) (slot : Slot R) (r : Reassembler R)
      → get_slot k r.slots ≡ some slot
      → IsValid instant_max r
      → IsValid instant_max (remove_slot k slot r)
  unfolding remove_slot
  remove_slot-IsValid k slot r e v =
      let (bytes, count) = delete_slot_sums k r.slots slot e in
      record {
        reserved = omega (arith, v.reserved);
        bounded = omega (arith, v.bounded);
        room = omega (arith, v.room);
        distinct = delete_slot-Distinct k r.slots v.distinct;
        partials = delete_slot-AllSlots _ k r.slots v.partials;
        due =
            due_reset (λ n slot. DueBy n (checked_add instant_max slot.created_at r.config.ttl))
              r.next_expiry _ (delete_slot-AllSlots _ k r.slots v.due);
      }

  put_slot-IsValid :
      (k : Key) (slot new : Slot R) (r : Reassembler R)
      → get_slot k r.slots ≡ some slot
      → new.total_len ≡ slot.total_len
      → new.created_at ≡ slot.created_at
      → IsPartial new
      → IsValid instant_max r
      → IsValid instant_max (record r { slots = put_slot k new r.slots })
  put_slot-IsValid k slot new r e size created p v =
      let (bytes, count) = put_slot_sums k r.slots slot new e size in
      let due_of : Slot R → Type 0 =
        λ slot. DueBy r.next_expiry (checked_add instant_max slot.created_at r.config.ttl) in
      record {
        reserved = omega (arith, v.reserved);
        bounded = omega (arith, v.bounded);
        room = omega (arith, v.room);
        distinct = put_slot-Distinct k new r.slots v.distinct;
        partials = put_slot-AllSlots _ k new r.slots p v.partials;
        due =
            put_slot-AllSlots due_of k new r.slots
              (subst (λ c. DueBy r.next_expiry (checked_add instant_max c r.config.ttl))
                (sym created) (get_slot-AllSlots due_of k r.slots slot v.due e))
              v.due;
      }

  delete_put :
      (k : Key) (new : Slot R) (slots : List (Key × Slot R))
      → delete_slot k (put_slot k new slots) ≡ delete_slot k slots
  delete_put k new [] = refl
  delete_put k new ((j, s) ∷ slots) = ground (arith, delete_put k new slots)

  finish_state :
      (k : Key) (slot : Slot R) (evicted : Bool) (r : Reassembler R)
      → (finish k slot evicted r).0 ≡ remove_slot k slot r
  unfolding finish
  finish_state k slot evicted r = ground arith

  remove_filled :
      (k : Key) (slot : Slot R) (f : UdpFragment) (r : Reassembler R)
      → remove_slot k
          (filled_slot slot f)
          (record r { slots = put_slot k (filled_slot slot f) r.slots })
        ≡ remove_slot k slot r
  unfolding remove_slot
  remove_filled k slot f r = rw (delete_put k (filled_slot slot f) r.slots) refl

  add_fragment-IsValid :
      (k : Key) (slot : Slot R) (f : UdpFragment) (evicted : Bool) (r : Reassembler R)
      → get_slot k r.slots ≡ some slot
      → f.fragment_index < slot.fragment_count
      → get_or slot.fragments f.fragment_index none ≡ none
      → IsValid instant_max r
      → IsValid instant_max (add_fragment k slot f evicted r).0
  unfolding add_fragment
  add_fragment-IsValid k slot f evicted r e inside free v =
      let p = get_slot-AllSlots IsPartial k r.slots slot v.partials e in
      let gone = remove_slot-IsValid k slot r e v in
      elim (Bool-cases (ltb slot.total_len (saturating_add slot.retained (length f.payload)))) [
        | inl h ↦ rw h gone
        | inr h ↦ rw h (elim (Bool-cases (ltb (slot.received + 1) slot.fragment_count)) [
          | inl more ↦ rw more (
              put_slot-IsValid k slot (filled_slot slot f) r e refl refl
                (filled_slot-IsPartial slot f p inside free (ground arith) (ltb→lt _ _ more)) v)
          | inr done ↦ rw done (
              subst (IsValid instant_max)
                (sym (
                  finish_state k (filled_slot slot f) evicted
                    (record r { slots = put_slot k (filled_slot slot f) r.slots })
                  ∙ remove_filled k slot f r))
                gone)
        ])
      ]

  push_existing-IsValid :
      (k : Key) (slot : Slot R) (f : UdpFragment) (evicted : Bool) (r : Reassembler R)
      → get_slot k r.slots ≡ some slot
      → f.fragment_index < f.fragment_count
      → IsValid instant_max r
      → IsValid instant_max (push_existing k slot f evicted r).0
  unfolding push_existing
  push_existing-IsValid k slot f evicted r e inside v =
      let gone = remove_slot-IsValid k slot r e v in
      elim (Bool-cases
        (not (slot.fragment_count == f.fragment_count) || not (slot.total_len == f.total_len))) [
          | inl h ↦ rw h gone
          | inr h ↦ rw h (elim (Option-cases (get_or slot.fragments f.fragment_index none)) [
            | inl free ↦ rw free (add_fragment-IsValid k slot f evicted r e (ground arith) free v)
            | inr (existing, there) ↦ rw there (elim (Bool-cases (same_bytes existing f.payload)) [
              | inl same ↦ rw same v
              | inr other ↦ rw other gone
            ])
          ])
        ]

  -- After room is made for a key that has no slot, it still has none, and the limit is not reached.
  record HasRoom (k : Key) (config : ReassemblyConfig) (r : Reassembler R) : Type 0 where
    valid : IsValid instant_max r
    kept : r.config ≡ config
    absent : get_slot k r.slots ≡ none
    below : length r.slots < r.config.max_slots

  remove_slot-HasRoom :
      (k j : Key) (slot : Slot R) (r : Reassembler R)
      → get_slot k r.slots ≡ none
      → get_slot j r.slots ≡ some slot
      → IsValid instant_max r
      → HasRoom k r.config (remove_slot j slot r)
  unfolding remove_slot
  remove_slot-HasRoom k j slot r e there v =
      let (bytes, count) = delete_slot_sums j r.slots slot there in
      record {
        valid = remove_slot-IsValid j slot r there v;
        kept = refl;
        absent = delete_slot_absent k j r.slots e;
        below = omega (arith, v.room);
      }

  make_room-HasRoom :
      (k : Key) (evicted : Bool) (r : Reassembler R)
      → 1 ≤ r.config.max_slots
      → get_slot k r.slots ≡ none
      → IsValid instant_max r
      → HasRoom k r.config (make_room evicted r).0
  unfolding make_room
  make_room-HasRoom k evicted r h e v =
      elim (Bool-cases (leb r.config.max_slots (length r.slots))) [
        | inl full ↦
            let some_slot : 1 ≤ length r.slots =
              omega (arith, h, leb→le r.config.max_slots (length r.slots) full) in
            let ((j, slot), found) = oldest-some r.slots some_slot in
            rw (full, found)
              (remove_slot-HasRoom k j slot r e (oldest-get_slot r.slots j slot v.distinct found) v)
        | inr free ↦ rw free (record { valid = v; kept = refl; absent = e; below = ground arith })
      ]

  open_slot-IsValid :
      (k : Key) (flow_id : ℕ) (f : UdpFragment) (now : ℕ) (reserve : ℕ → Option R) (evicted : Bool)
      (config : ReassemblyConfig) (r : Reassembler R)
      → is_malformed flow_id f ≡ false
      → f.total_len < 65_536
      → r.config.max_bytes < usize_max
      → HasRoom k config r
      → IsValid instant_max (open_slot instant_max k f now reserve evicted r).0
  unfolding open_slot
  open_slot-IsValid k flow_id f now reserve evicted config r e typed limit room =
      let v = room.valid in
      elim (Bool-cases (ltb r.config.max_bytes (saturating_add r.reserved_bytes f.total_len))) [
        | inl h ↦ rw h v
        | inr h ↦ rw h (elim (Option-cases (reserve f.total_len)) [
          | inl refused ↦ rw refused v
          | inr (reservation, granted) ↦ rw granted (record {
            reserved = omega (arith, v.reserved);
            bounded = ground (arith, v.reserved);
            room = omega (arith, room.below);
            distinct = (room.absent, v.distinct);
            partials = (first_slot-IsPartial flow_id now f reservation e typed, v.partials);
            due = (
              DueBy-new_expiry_self instant_max now r.config.ttl r.next_expiry,
              AllSlots-map _ _ r.slots
                  (λ slot.
                    DueBy-new_expiry instant_max now r.config.ttl r.next_expiry
                      (checked_add instant_max slot.created_at r.config.ttl))
                  v.due,
            );
          })
        ])
      ]

  push_new-IsValid :
      (k : Key) (flow_id : ℕ) (f : UdpFragment) (now : ℕ) (reserve : ℕ → Option R) (evicted : Bool)
      (r : Reassembler R)
      → is_malformed flow_id f ≡ false
      → f.total_len < 65_536
      → r.config.max_bytes < usize_max
      → get_slot k r.slots ≡ none
      → IsValid instant_max r
      → IsValid instant_max (push_new instant_max k f now reserve evicted r).0
  unfolding push_new
  push_new-IsValid k flow_id f now reserve evicted r e typed limit absent v =
      elim (Bool-cases (r.config.max_slots == 0 || ltb r.config.max_bytes f.total_len)) [
        | inl h ↦ rw h v
        | inr h ↦
            let room = make_room-HasRoom k evicted r (ground arith) absent v in
            rw h (
              open_slot-IsValid k flow_id f now reserve (make_room evicted r).1 r.config
                (make_room evicted r).0 e typed
                (subst (λ (c : ReassemblyConfig). c.max_bytes < usize_max) (sym room.kept) limit)
                room)
      ]

  push_checked-IsValid :
      (k : Key) (flow_id : ℕ) (f : UdpFragment) (now : ℕ) (reserve : ℕ → Option R) (evicted : Bool)
      (r : Reassembler R)
      → is_malformed flow_id f ≡ false
      → f.total_len < 65_536
      → r.config.max_bytes < usize_max
      → IsValid instant_max r
      → IsValid instant_max (push_checked instant_max k f now reserve evicted r).0
  unfolding push_checked
  push_checked-IsValid k flow_id f now reserve evicted r e typed limit v =
      elim (Option-cases (get_slot k r.slots)) [
        | inl absent ↦
            rw (push_checked, absent)
              (push_new-IsValid k flow_id f now reserve evicted r e typed limit absent v)
        | inr (slot, there) ↦
            rw (push_checked, there)
              (push_existing-IsValid k slot f evicted r there (well_formed flow_id f e).1 v)
      ]

  -- From a sound reassembler whose byte limit is below the greatest `usize`, pushing any fragment
  -- with a 16-bit total length, whatever the caller's reservation answers, leads to a sound
  -- reassembler, on every branch: the reserved bytes are the sum of the slots' lengths and within
  -- the byte limit, there are at most as many slots as configured and none twice for a key, and
  -- each slot's counters agree with the fragments it holds.
  pub push_with-IsValid :
      (flow_id : ℕ) (f : UdpFragment) (now : ℕ) (reserve : ℕ → Option R) (r : Reassembler R)
      → f.total_len < 65_536
      → r.config.max_bytes < usize_max
      → IsValid instant_max r
      → IsValid instant_max (push_with instant_max flow_id f now reserve r).0
  unfolding push_with
  push_with-IsValid flow_id f now reserve r typed limit v =
      elim (Bool-cases (is_malformed flow_id f)) [
        | inl h ↦ rw h v
        | inr h ↦ rw h (
            push_checked-IsValid (record { flow_id = flow_id; packet_id = f.packet_id }) flow_id f
              now reserve (expire instant_max now r).1 (expire instant_max now r).0 h typed
              (subst (λ (c : ReassemblyConfig). c.max_bytes < usize_max)
                (sym (expire_config instant_max now r)) limit)
              (expire-IsValid instant_max now r v))
      ]
