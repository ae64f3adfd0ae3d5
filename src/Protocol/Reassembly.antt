-- ===== src/Protocol/Reassembly.antt =====
-- src/protocol/datagram.rs, second half: `DatagramReassembler`. The hash map of slots is an
-- association list in some order of iteration; a key is in it once (`Reassembly.State`).
-- An `Instant` and a `Duration` are numbers of nanoseconds; `instant_max` is the last instant that
-- can be represented, which `checked_add` tests.
pub mod State
pub mod Sums
pub mod Slots
pub mod Partial
pub mod Expiry
pub mod Invariant
pub mod Delivery
pub mod Completion
mod Tests
use nowhere.Common.{
  ℕ, zero, suc, ◌+◌, ◌-◌, ◌^◌, ◌≡◌, ◌<◌, min, List, [], ◌∷◌, ◌++◌, Bool, true, false, not, ◌==◌,
  ltb, leb, ◌&&◌, ◌||◌, if◌then◌else◌, length, get_or, set, replicate, is_empty, Option, none, some,
  Result, ok, err, is_ok,
}
use nowhere.Protocol.Datagram.{UdpFragment, validate_fragment_metadata}

pub record ReassemblyConfig : Type 0 where
  pub max_slots : ℕ
  pub max_bytes : ℕ
  pub ttl : ℕ

-- `ReassemblyConfig::default`
abbrev pub default_config : ReassemblyConfig
default_config = record { max_slots = 64; max_bytes = 1_048_576; ttl = 10_000_000_000 }

pub data DropReason : Type 0 where
  metadata_conflict duplicate_conflict byte_limit invalid_length : DropReason

pub data Outcome (R : Type 0) : Type 0 where
  pending : Bool → Outcome R
  complete : List ℕ → R → Bool → Outcome R
  dropped : DropReason → Outcome R

pub record Key : Type 0 where
  pub flow_id : ℕ
  pub packet_id : ℕ

abbrev pub same_key : Key → Key → Bool
same_key a b = a.flow_id == b.flow_id && a.packet_id == b.packet_id

pub record Slot (R : Type 0) : Type 0 where
  pub created_at : ℕ
  pub fragment_count : ℕ
  pub total_len : ℕ
  pub fragments : List (Option (List ℕ))
  pub received : ℕ
  pub retained : ℕ
  pub reservation : R

pub record Reassembler (R : Type 0) : Type 0 where
  pub config : ReassemblyConfig
  pub slots : List (Key × Slot R)
  pub reserved_bytes : ℕ
  pub next_expiry : Option ℕ

abbrev pub usize_max : ℕ
usize_max = 18_446_744_073_709_551_615

abbrev pub saturating_add : ℕ → ℕ → ℕ
saturating_add a b = min (a + b) usize_max

-- `existing == &fragment.payload`
abbrev pub same_bytes : List ℕ → List ℕ → Bool
same_bytes [] [] = true
same_bytes (a ∷ xs) (b ∷ ys) = a == b && same_bytes xs ys
same_bytes _ _ = false

-- The loop that puts the fragments together; `none` where one is missing.
abbrev pub join_fragments : List (Option (List ℕ)) → Option (List ℕ)
join_fragments [] = some []
join_fragments (none ∷ rest) = none
join_fragments (some bytes ∷ rest) = elim (join_fragments rest) [
  | none ↦ none
  | some tail ↦ some (bytes ++ tail)
]

-- `now.checked_add(ttl)`, where `instant_max` is the last instant.
abbrev pub checked_add : ℕ → ℕ → ℕ → Option ℕ
checked_add instant_max now ttl = if leb (now + ttl) instant_max then some (now + ttl) else none

-- The smaller of two optional instants, where one may be missing.
abbrev pub earlier : Option ℕ → Option ℕ → Option ℕ
earlier none b = b
earlier (some a) none = some a
earlier (some a) (some b) = some (min a b)

-- When the slot that is opened now will expire, or an older one before it.
abbrev pub new_expiry : ℕ → ℕ → ℕ → Option ℕ → ℕ
new_expiry instant_max now ttl none = elim (checked_add instant_max now ttl) [
  | none ↦ now
  | some t ↦ t
]
new_expiry instant_max now ttl (some current) =
    min current (elim (checked_add instant_max now ttl) [ none ↦ now | some t ↦ t ])

-- The first test of `push_with`.
pub is_malformed : ℕ → UdpFragment → Bool
is_malformed flow_id f =
    flow_id == 0
    || f.packet_id == 0
    || not (is_ok (validate_fragment_metadata f.fragment_index f.fragment_count f.total_len))
    || is_empty f.payload
    || ltb f.total_len (saturating_add (length f.payload) (f.fragment_count - 1))

module _ {R : Type 0} where
  abbrev pub get_slot : Key → List (Key × Slot R) → Option (Slot R)
  get_slot k [] = none
  get_slot k ((j, slot) ∷ slots) = if same_key j k then some slot else get_slot k slots

  abbrev pub delete_slot : Key → List (Key × Slot R) → List (Key × Slot R)
  delete_slot k [] = []
  delete_slot k ((j, slot) ∷ slots) =
      if same_key j k then slots else (j, slot) ∷ delete_slot k slots

  -- A write through `get_mut`.
  abbrev pub put_slot : Key → Slot R → List (Key × Slot R) → List (Key × Slot R)
  put_slot k new [] = []
  put_slot k new ((j, slot) ∷ slots) =
      if same_key j k then (j, new) ∷ slots else (j, slot) ∷ put_slot k new slots

  pub new_reassembler : ReassemblyConfig → Reassembler R
  new_reassembler config = record {
    config = config;
    slots = [];
    reserved_bytes = 0;
    next_expiry = none;
  }

  -- `remove_slot`: the slot is gone, and its bytes are no longer reserved.
  pub remove_slot : Key → Slot R → Reassembler R → Reassembler R
  remove_slot k slot r =
      let slots = delete_slot k r.slots in
      record r {
        slots = slots;
        reserved_bytes = r.reserved_bytes - slot.total_len;
        next_expiry = if is_empty slots then none else r.next_expiry;
      }

  abbrev pub flow_bytes : ℕ → List (Key × Slot R) → ℕ
  flow_bytes flow_id [] = 0
  flow_bytes flow_id ((k, slot) ∷ slots) =
      (if k.flow_id == flow_id then slot.total_len else 0) + flow_bytes flow_id slots

  abbrev pub without_flow : ℕ → List (Key × Slot R) → List (Key × Slot R)
  without_flow flow_id [] = []
  without_flow flow_id ((k, slot) ∷ slots) =
      let rest = without_flow flow_id slots in
      if k.flow_id == flow_id then rest else (k, slot) ∷ rest

  pub remove_flow : ℕ → Reassembler R → Reassembler R
  remove_flow flow_id r =
      let slots = without_flow flow_id r.slots in
      record r {
        slots = slots;
        reserved_bytes = r.reserved_bytes - flow_bytes flow_id r.slots;
        next_expiry = if is_empty slots then none else r.next_expiry;
      }

  pub clear : Reassembler R → Reassembler R
  clear r = record r { slots = []; reserved_bytes = 0; next_expiry = none }

  -- `now.saturating_duration_since(created_at) <= ttl`
  abbrev pub is_fresh : ℕ → ℕ → Slot R → Bool
  is_fresh ttl now slot = leb (now - slot.created_at) ttl

  abbrev pub fresh_slots : ℕ → ℕ → List (Key × Slot R) → List (Key × Slot R)
  fresh_slots ttl now [] = []
  fresh_slots ttl now ((k, slot) ∷ slots) =
      let rest = fresh_slots ttl now slots in
      if is_fresh ttl now slot then (k, slot) ∷ rest else rest

  abbrev pub released_bytes : ℕ → ℕ → List (Key × Slot R) → ℕ
  released_bytes ttl now [] = 0
  released_bytes ttl now ((k, slot) ∷ slots) =
      (if is_fresh ttl now slot then 0 else slot.total_len) + released_bytes ttl now slots

  -- The first key of those with the earliest creation, as `min_by_key` finds it.
  abbrev pub oldest_of : Key × Slot R → List (Key × Slot R) → Key × Slot R
  oldest_of best [] = best
  oldest_of best (entry ∷ slots) =
      oldest_of (if ltb entry.1.created_at best.1.created_at then entry else best) slots

  abbrev pub oldest : List (Key × Slot R) → Option (Key × Slot R)
  oldest [] = none
  oldest (entry ∷ slots) = some (oldest_of entry slots)

  -- All fragments are there: the slot goes, and the packet comes out.
  pub finish : Key → Slot R → Bool → Reassembler R → Reassembler R × Outcome R
  finish k slot evicted r =
      let r' = remove_slot k slot r in
      if not (slot.retained == slot.total_len)
      then (r', dropped invalid_length)
      else elim (join_fragments slot.fragments) [
        | none ↦ (r', dropped invalid_length)
        | some payload ↦ (r', complete payload slot.reservation evicted)
      ]

  -- A fragment whose place in the slot is free.
  pub add_fragment : Key → Slot R → UdpFragment → Bool → Reassembler R → Reassembler R × Outcome R
  add_fragment k slot f evicted r =
      let retained = saturating_add slot.retained (length f.payload) in
      if ltb slot.total_len retained
      then (remove_slot k slot r, dropped invalid_length)
      else (let slot' = record slot {
        fragments = set slot.fragments f.fragment_index (some f.payload);
        received = slot.received + 1;
        retained = retained;
      } in
          let r' = record r { slots = put_slot k slot' r.slots } in
          if ltb slot'.received slot'.fragment_count
          then (r', pending evicted)
          else finish k slot' evicted r')

  -- `push_with` where the packet has a slot. The index is below the slot's fragment count,
  -- which is the length of its list.
  pub push_existing : Key → Slot R → UdpFragment → Bool → Reassembler R → Reassembler R × Outcome R
  push_existing k slot f evicted r =
      if not (slot.fragment_count == f.fragment_count) || not (slot.total_len == f.total_len)
      then (remove_slot k slot r, dropped metadata_conflict)
      else elim (get_or slot.fragments f.fragment_index none) [
        | some existing ↦
            if same_bytes existing f.payload
            then (r, pending evicted)
            else (remove_slot k slot r, dropped duplicate_conflict)
        | none ↦ add_fragment k slot f evicted r
      ]

  -- The slot that a first fragment opens.
  abbrev pub first_slot : ℕ → UdpFragment → R → Slot R
  first_slot now f reservation = record {
    created_at = now;
    fragment_count = f.fragment_count;
    total_len = f.total_len;
    fragments = set (replicate f.fragment_count none) f.fragment_index (some f.payload);
    received = 1;
    retained = length f.payload;
    reservation = reservation;
  }

  -- Where the slots are all taken, the oldest makes room.
  pub make_room : Bool → Reassembler R → Reassembler R × Bool
  make_room evicted r =
      if leb r.config.max_slots (length r.slots)
      then (elim (oldest r.slots) [
        | none ↦ (r, evicted)
        | some (k, slot) ↦ (remove_slot k slot r, true)
      ])
      else (r, evicted)

  module _ (instant_max : ℕ) where
    abbrev pub first_expiry : ℕ → List (Key × Slot R) → Option ℕ
    first_expiry ttl [] = none
    first_expiry ttl ((k, slot) ∷ slots) =
        earlier (checked_add instant_max slot.created_at ttl) (first_expiry ttl slots)

    pub sweep : ℕ → Reassembler R → Reassembler R
    sweep now r =
        let slots = fresh_slots r.config.ttl now r.slots in
        record r {
          slots = slots;
          reserved_bytes = r.reserved_bytes - released_bytes r.config.ttl now r.slots;
          next_expiry = first_expiry r.config.ttl slots;
        }

    -- `expire` where the next expiry is known, or where there is none.
    pub expire_at : ℕ → Option ℕ → Reassembler R → Reassembler R × Bool
    expire_at now none r = (r, false)
    expire_at now (some next) r =
        if leb now next
        then (r, false)
        else (sweep now r, not (length (sweep now r).slots == length r.slots))

    -- The new state, and whether a slot was dropped.
    pub expire : ℕ → Reassembler R → Reassembler R × Bool
    expire now r = expire_at now r.next_expiry r

    pub open_slot :
        Key → UdpFragment → ℕ → (ℕ → Option R) → Bool → Reassembler R → Reassembler R × Outcome R
    open_slot k f now reserve evicted r =
        if ltb r.config.max_bytes (saturating_add r.reserved_bytes f.total_len)
        then (r, dropped byte_limit)
        else elim (reserve f.total_len) [
          | none ↦ (r, dropped byte_limit)
          | some reservation ↦ (
            record r {
              slots = (k, first_slot now f reservation) ∷ r.slots;
              reserved_bytes = r.reserved_bytes + f.total_len;
              next_expiry = some (new_expiry instant_max now r.config.ttl r.next_expiry);
            },
            pending evicted,
          )
        ]

    -- `push_with` where the packet has no slot.
    pub push_new :
        Key → UdpFragment → ℕ → (ℕ → Option R) → Bool → Reassembler R → Reassembler R × Outcome R
    push_new k f now reserve evicted r =
        if r.config.max_slots == 0 || ltb r.config.max_bytes f.total_len
        then (r, dropped byte_limit)
        else (let (r', evicted') = make_room evicted r in open_slot k f now reserve evicted' r')

    -- `push_with` behind its first test, on the state that `expire` left.
    pub push_checked :
        Key → UdpFragment → ℕ → (ℕ → Option R) → Bool → Reassembler R → Reassembler R × Outcome R
    push_checked k f now reserve evicted r = elim (get_slot k r.slots) [
      | some slot ↦ push_existing k slot f evicted r
      | none ↦ push_new k f now reserve evicted r
    ]

    pub push_with : ℕ → UdpFragment → ℕ → (ℕ → Option R) → Reassembler R → Reassembler R × Outcome R
    push_with flow_id f now reserve r =
        if is_malformed flow_id f
        then (r, dropped invalid_length)
        else (let (r', evicted) = expire now r in
            push_checked (record { flow_id = flow_id; packet_id = f.packet_id }) f now reserve
              evicted r')
