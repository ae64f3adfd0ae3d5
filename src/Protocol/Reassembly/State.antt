-- ===== src/Protocol/Reassembly/State.antt =====
-- What a sound reassembler is: its slots, its sum of reserved bytes and its next expiry.
use nowhere.Common.{ℕ, suc, ◌+◌, ◌≡◌, ◌≤◌, ◌<◌, List, [], ◌∷◌, Option, none, some, length}
use nowhere.Protocol.Reassembly.{Key, Slot, Reassembler, get_slot, checked_add}

-- The fragments that are there, and their bytes.
abbrev pub present : List (Option (List ℕ)) → ℕ
present [] = 0
present (none ∷ rest) = present rest
present (some bytes ∷ rest) = suc (present rest)

abbrev pub held_bytes : List (Option (List ℕ)) → ℕ
held_bytes [] = 0
held_bytes (none ∷ rest) = held_bytes rest
held_bytes (some bytes ∷ rest) = length bytes + held_bytes rest

-- An expiry that is known is not after the instant; where an instant cannot be represented,
-- nothing is asked.
abbrev pub DueBy : Option ℕ → Option ℕ → Type 0
DueBy next none = Unit {0}
DueBy none (some t) = ⊥
DueBy (some next) (some t) = next ≤ t

module _ {R : Type 0} where
  -- A slot of a packet that is not complete: its counters agree with its fragments.
  pub record IsPartial (slot : Slot R) : Type 0 where
    pub places : length slot.fragments ≡ slot.fragment_count
    pub counted : slot.received ≡ present slot.fragments
    pub some_here : 1 ≤ slot.received
    pub some_missing : slot.received < slot.fragment_count
    pub measured : slot.retained ≡ held_bytes slot.fragments
    pub within : slot.retained ≤ slot.total_len
    pub typed : slot.total_len < 65_536

  abbrev pub total_bytes : List (Key × Slot R) → ℕ
  total_bytes [] = 0
  total_bytes ((k, slot) ∷ slots) = slot.total_len + total_bytes slots

  -- No key has two slots.
  abbrev pub Distinct : List (Key × Slot R) → Type 0
  Distinct [] = Unit {0}
  Distinct ((k, slot) ∷ slots) = (get_slot k slots ≡ none) × Distinct slots

  abbrev pub AllSlots : (Slot R → Type 0) → List (Key × Slot R) → Type 0
  AllSlots P [] = Unit {0}
  AllSlots P ((k, slot) ∷ slots) = P slot × AllSlots P slots

  -- The limits of the configuration are kept, the reserved bytes are those of the slots, and no
  -- slot can expire before the next expiry.
  pub record IsValid (instant_max : ℕ) (r : Reassembler R) : Type 0 where
    pub reserved : r.reserved_bytes ≡ total_bytes r.slots
    pub bounded : total_bytes r.slots ≤ r.config.max_bytes
    pub room : length r.slots ≤ r.config.max_slots
    pub distinct : Distinct r.slots
    pub partials : AllSlots IsPartial r.slots
    pub due :
        AllSlots
          (λ slot. DueBy r.next_expiry (checked_add instant_max slot.created_at r.config.ttl))
          r.slots
