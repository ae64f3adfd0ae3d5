-- ===== src/Protocol/Datagram/Tests.antt =====
-- The DATAGRAM theorems at a packet of eleven bytes under a limit of 15.
use nowhere.Common.{ℕ, ◌≡◌, ◌≤◌, ◌↔◌, refl, List, [], ◌∷◌, All, length, replicate, ok, arith}
use nowhere.Protocol.Datagram.{
  UdpFragments, data_frame, encode_udp_fragments, encode_udp_data, collect, remaining,
  decode_udp_frame,
}
use nowhere.Protocol.Datagram.Frames.{encode_frame, PayloadFits, decode_udp_frame_iff}
use nowhere.Protocol.Datagram.SplitDecode.{
  decode_all, of_flow, fragments_from, payloads, encode_udp_fragments_split,
}

abbrev packet : List ℕ
packet = replicate 11 7

abbrev plan : UdpFragments
plan = record {
  flow_id = 5;
  packet_id = 9;
  payload = packet;
  fragment_payload_max = 2;
  fragment_count = 6;
  next = 0;
}

planned : encode_udp_fragments 5 9 packet 15 ≡ ok plan
unfolding encode_udp_fragments
planned = refl

abbrev data_bytes : List ℕ
data_bytes = 0 ∷ 0 ∷ 0 ∷ 1 ∷ 2 ∷ 77 ∷ []

data_encoded : encode_udp_data 258 (77 ∷ []) ≡ ok data_bytes
unfolding encode_udp_data
data_encoded = refl

decode_udp_frame_iff_example : (decode_udp_frame data_bytes ≡ ok (data_frame 258 (77 ∷ []))) ↔ (
    (encode_frame (data_frame 258 (77 ∷ [])) ≡ ok data_bytes)
    × PayloadFits (data_frame 258 (77 ∷ [])))
decode_udp_frame_iff_example =
    decode_udp_frame_iff data_bytes (data_frame 258 (77 ∷ [])) (omega arith) (omega arith)

encode_udp_fragments_split_example :
    (frames : List (List ℕ)) × ((rounds : ℕ)
      → remaining plan ≤ rounds
      → collect rounds plan ≡ ok frames)
    × All (λ frame. length frame ≤ 15) frames
    × (decode_all frames ≡ ok (of_flow 5 (fragments_from plan 6 0)))
    × (payloads (fragments_from plan 6 0) ≡ packet)
encode_udp_fragments_split_example =
    encode_udp_fragments_split 5 9 packet 15 plan (omega arith) (omega arith) planned
