-- ===== src/Protocol/Reassembly/Sums.antt =====
-- Slots that are taken out, changed or swept: their keys, their number and their bytes.
use nowhere.Common.{ℕ, ◌+◌, ◌≡◌, ◌≤◌, refl, List, [], ◌∷◌, true, none, some, length, arith}
use nowhere.Protocol.Reassembly.{
  Key, Slot, same_key, get_slot, delete_slot, put_slot, flow_bytes, without_flow, fresh_slots,
  released_bytes,
}
use nowhere.Protocol.Reassembly.State.{total_bytes, Distinct}

pub same_key_refl : (k : Key) → same_key k k ≡ true
same_key_refl k = ground arith

pub same_key_eq : (j k : Key) → same_key j k ≡ true → j ≡ k
same_key_eq j k e = ground arith

module _ {R : Type 0} where
  pub delete_slot_sums :
      (k : Key) (slots : List (Key × Slot R)) (slot : Slot R)
      → get_slot k slots ≡ some slot
      → (total_bytes (delete_slot k slots) + slot.total_len ≡ total_bytes slots)
        × (length (delete_slot k slots) + 1 ≡ length slots)
  delete_slot_sums k [] slot e = cc
  delete_slot_sums k ((j, s) ∷ slots) slot e = ground (arith, delete_slot_sums k slots slot)

  pub put_slot_sums :
      (k : Key) (slots : List (Key × Slot R)) (slot new : Slot R)
      → get_slot k slots ≡ some slot
      → new.total_len ≡ slot.total_len
      → (total_bytes (put_slot k new slots) ≡ total_bytes slots)
        × (length (put_slot k new slots) ≡ length slots)
  put_slot_sums k [] slot new e h = cc
  put_slot_sums k ((j, s) ∷ slots) slot new e h = ground (arith, put_slot_sums k slots slot new)

  pub without_flow_sums :
      (flow_id : ℕ) (slots : List (Key × Slot R))
      → (total_bytes (without_flow flow_id slots) + flow_bytes flow_id slots ≡ total_bytes slots)
        × (length (without_flow flow_id slots) ≤ length slots)
  without_flow_sums flow_id [] = omega arith
  without_flow_sums flow_id ((k, s) ∷ slots) = ground (arith, without_flow_sums flow_id slots)

  pub fresh_slots_sums :
      (ttl now : ℕ) (slots : List (Key × Slot R))
      → (total_bytes (fresh_slots ttl now slots) + released_bytes ttl now slots ≡ total_bytes slots)
        × (length (fresh_slots ttl now slots) ≤ length slots)
  fresh_slots_sums ttl now [] = omega arith
  fresh_slots_sums ttl now ((k, s) ∷ slots) = ground (arith, fresh_slots_sums ttl now slots)

  -- A key that is not there stays away.
  pub delete_slot_absent :
      (j k : Key) (slots : List (Key × Slot R))
      → get_slot j slots ≡ none
      → get_slot j (delete_slot k slots) ≡ none
  delete_slot_absent j k [] e = refl
  delete_slot_absent j k ((i, s) ∷ slots) e = ground (arith, delete_slot_absent j k slots)

  put_slot_absent :
      (j k : Key) (new : Slot R) (slots : List (Key × Slot R))
      → get_slot j slots ≡ none
      → get_slot j (put_slot k new slots) ≡ none
  put_slot_absent j k new [] e = refl
  put_slot_absent j k new ((i, s) ∷ slots) e = ground (arith, put_slot_absent j k new slots)

  without_flow_absent :
      (j : Key) (flow_id : ℕ) (slots : List (Key × Slot R))
      → get_slot j slots ≡ none
      → get_slot j (without_flow flow_id slots) ≡ none
  without_flow_absent j flow_id [] e = refl
  without_flow_absent j flow_id ((i, s) ∷ slots) e =
      ground (arith, without_flow_absent j flow_id slots)

  fresh_slots_absent :
      (j : Key) (ttl now : ℕ) (slots : List (Key × Slot R))
      → get_slot j slots ≡ none
      → get_slot j (fresh_slots ttl now slots) ≡ none
  fresh_slots_absent j ttl now [] e = refl
  fresh_slots_absent j ttl now ((i, s) ∷ slots) e =
      ground (arith, fresh_slots_absent j ttl now slots)

  pub delete_slot-Distinct :
      (k : Key) (slots : List (Key × Slot R)) → Distinct slots → Distinct (delete_slot k slots)
  delete_slot-Distinct k [] d = tt
  delete_slot-Distinct k ((j, s) ∷ slots) d =
      ground (arith, delete_slot_absent j k slots, delete_slot-Distinct k slots d.1)

  pub put_slot-Distinct :
      (k : Key) (new : Slot R) (slots : List (Key × Slot R))
      → Distinct slots
      → Distinct (put_slot k new slots)
  put_slot-Distinct k new [] d = tt
  put_slot-Distinct k new ((j, s) ∷ slots) d =
      ground (arith, put_slot_absent j k new slots, put_slot-Distinct k new slots d.1)

  pub without_flow-Distinct :
      (flow_id : ℕ) (slots : List (Key × Slot R))
      → Distinct slots
      → Distinct (without_flow flow_id slots)
  without_flow-Distinct flow_id [] d = tt
  without_flow-Distinct flow_id ((j, s) ∷ slots) d =
      ground (arith, without_flow_absent j flow_id slots, without_flow-Distinct flow_id slots d.1)

  pub fresh_slots-Distinct :
      (ttl now : ℕ) (slots : List (Key × Slot R))
      → Distinct slots
      → Distinct (fresh_slots ttl now slots)
  fresh_slots-Distinct ttl now [] d = tt
  fresh_slots-Distinct ttl now ((j, s) ∷ slots) d =
      ground (arith, fresh_slots_absent j ttl now slots, fresh_slots-Distinct ttl now slots d.1)
