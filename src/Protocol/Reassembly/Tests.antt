-- ===== src/Protocol/Reassembly/Tests.antt =====
-- Runs of the reassembler: a packet of three bytes in two pieces, the first of which is held.
use nowhere.Common.{ℕ, ◌≡◌, ◌<◌, refl, List, [], ◌∷◌, false, Option, some, arith}
use nowhere.Protocol.Datagram.{UdpFragment, validate_fragment_metadata}
use nowhere.Protocol.Reassembly.{
  Key, Reassembler, complete, default_config, new_reassembler, first_slot, get_slot, is_malformed,
  usize_max, remove_flow, expire_at, expire, make_room, open_slot, push_new, push_checked,
  push_with,
}
use nowhere.Protocol.Reassembly.State.{IsValid, AllSlots}
use nowhere.Protocol.Reassembly.Expiry.{IsFresh, expire-IsFresh}
use nowhere.Protocol.Reassembly.Invariant.{
  new_reassembler-IsValid, remove_flow-IsValid, push_with-IsValid,
}
use nowhere.Protocol.Reassembly.Delivery.{Holds, Keeps, push_with-Keeps, join}
use nowhere.Protocol.Reassembly.Completion.{IsLast, push_with-complete}

abbrev instant_max : ℕ
instant_max = 1_000_000_000_000_000

abbrev packet : List (List ℕ)
packet = (1 ∷ 2 ∷ []) ∷ (3 ∷ []) ∷ []

abbrev fragment : ℕ → List ℕ → UdpFragment
fragment index payload = record {
  packet_id = 1;
  fragment_index = index;
  fragment_count = 2;
  total_len = 3;
  payload = payload;
}

abbrev first : UdpFragment
first = fragment 0 (1 ∷ 2 ∷ [])

abbrev second : UdpFragment
second = fragment 1 (3 ∷ [])

abbrev grant : ℕ → Option ℕ
grant n = some n

abbrev key : Key
key = record { flow_id = 7; packet_id = 1 }

abbrev fresh : Reassembler ℕ
fresh = new_reassembler default_config

fresh-config : fresh.config.max_bytes < usize_max
unfolding new_reassembler
fresh-config = omega arith

fresh-Holds : Holds (λ k. packet) fresh.slots
unfolding new_reassembler
fresh-Holds = tt

abbrev one_held : Reassembler ℕ
one_held = (push_with instant_max 7 first 5 grant fresh).0

one_held-IsValid : IsValid instant_max one_held
one_held-IsValid =
    push_with-IsValid instant_max 7 first 5 grant fresh (omega arith) fresh-config
      (new_reassembler-IsValid instant_max default_config)

one_held-config : one_held.config.max_bytes < usize_max
unfolding push_with is_malformed push_checked push_new make_room open_slot expire expire_at
    new_reassembler validate_fragment_metadata
one_held-config = omega arith

push_with-IsValid_example : IsValid instant_max (push_with instant_max 7 second 6 grant one_held).0
push_with-IsValid_example =
    push_with-IsValid instant_max 7 second 6 grant one_held (omega arith) one_held-config
      one_held-IsValid

remove_flow-IsValid_example : IsValid instant_max (remove_flow 7 one_held)
remove_flow-IsValid_example = remove_flow-IsValid instant_max 7 one_held one_held-IsValid

expire-IsFresh_example :
    AllSlots
      (IsFresh 20_000_000_000 one_held.config.ttl)
      (expire instant_max 20_000_000_000 one_held).0.slots
expire-IsFresh_example =
    expire-IsFresh instant_max 20_000_000_000 one_held (omega arith) one_held-IsValid

one_held-Holds : Holds (λ k. packet) one_held.slots
one_held-Holds =
    (push_with-Keeps (λ k. packet) instant_max 7 first 5 grant fresh (refl, refl) fresh-Holds).0

push_with-Keeps_example : Keeps (λ k. packet) key (push_with instant_max 7 second 6 grant one_held)
push_with-Keeps_example =
    push_with-Keeps (λ k. packet) instant_max 7 second 6 grant one_held (refl, refl) one_held-Holds

held_slot : get_slot key (expire instant_max 6 one_held).0.slots ≡ some (first_slot 5 first 3)
unfolding push_with is_malformed push_checked push_new make_room open_slot expire expire_at
    new_reassembler validate_fragment_metadata
held_slot = refl

second-IsLast : IsLast {R = ℕ} packet (first_slot 5 first 3) second
second-IsLast = record {
  matches = (refl, tt);
  piece = (refl, refl);
  same_count = refl;
  same_len = refl;
  whole = refl;
  free = refl;
  one_missing = refl;
}

second_well_formed : is_malformed 7 second ≡ false
unfolding is_malformed validate_fragment_metadata
second_well_formed = refl

push_with-complete_example :
    (push_with instant_max 7 second 6 grant one_held).1
    ≡ complete (join packet) 3 (expire instant_max 6 one_held).1
push_with-complete_example =
    push_with-complete instant_max packet 7 second 6 grant one_held (first_slot 5 first 3)
      second_well_formed one_held-IsValid held_slot second-IsLast
