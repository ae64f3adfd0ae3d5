-- ===== src/Protocol/Uot/Tests.antt =====
-- The UoT theorems at concrete packets.
use nowhere.Common.{ℕ, ◌≡◌, refl, List, [], ◌∷◌, some, ok}
use nowhere.Protocol.Stream.{Agrees, in_memory}
use nowhere.Protocol.Uot.{read_packet_tail, read_payload, read_udp_packet, write_udp_packet}
use nowhere.Protocol.Uot.RoundTrip.{parse_packet, read_udp_packet-Agrees}
use nowhere.Protocol.Uot.RoundTrip.{read_udp_packet-write_udp_packet}

abbrev two_packets : List ℕ
two_packets = 0 ∷ 2 ∷ 7 ∷ 8 ∷ 0 ∷ 0 ∷ []

write_two : write_udp_packet (7 ∷ 8 ∷ []) ≡ ok (0 ∷ 2 ∷ 7 ∷ 8 ∷ [])
unfolding write_udp_packet
write_two = refl

read_two : read_udp_packet in_memory two_packets ≡ ok (some (7 ∷ 8 ∷ []), 0 ∷ 0 ∷ [])
unfolding read_udp_packet read_packet_tail read_payload
read_two = refl

read_empty_packet : read_udp_packet in_memory (0 ∷ 0 ∷ []) ≡ ok (some [], [])
unfolding read_udp_packet read_packet_tail read_payload
read_empty_packet = refl

read_udp_packet-Agrees_example :
    Agrees in_memory (read_udp_packet in_memory two_packets) (parse_packet two_packets)
read_udp_packet-Agrees_example = read_udp_packet-Agrees in_memory two_packets

read_udp_packet-write_udp_packet_example :
    (t : List ℕ) × (read_udp_packet in_memory two_packets ≡ ok (some (7 ∷ 8 ∷ []), t))
    × (t ≡ 0 ∷ 0 ∷ [])
read_udp_packet-write_udp_packet_example =
    read_udp_packet-write_udp_packet in_memory (7 ∷ 8 ∷ []) (0 ∷ 2 ∷ 7 ∷ 8 ∷ []) (0 ∷ 0 ∷ [])
      two_packets write_two refl
