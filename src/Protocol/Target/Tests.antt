-- ===== src/Protocol/Target/Tests.antt =====
-- The target and domain theorems at concrete addresses.
use nowhere.Common.{ℕ, ◌≡◌, ◌≤◌, ◌↔◌, refl, List, [], ◌∷◌, ◌++◌, length, replicate, All, ok, arith}
use nowhere.Protocol.Stream.{in_memory}
use nowhere.Protocol.Domain.{validate_domain_bytes, validate_port}
use nowhere.Protocol.Domain.Labels.{IsLabel, join_dots, validate_domain_bytes_iff}
use nowhere.Protocol.Target.{
  Target, ip, v4, v6, encode_target, encode_target_into, encoded_len, decode_target, decode_ipv4,
  ip_target, read_request,
}
use nowhere.Protocol.Target.RoundTrip.{decode_target-encode_target, encode_target-decode_target}
use nowhere.Protocol.Target.Stream.{SameTarget, read_request-decode_target}

abbrev local : Target
local = ip (v4 (127 ∷ 0 ∷ 0 ∷ 1 ∷ []) 8080)

abbrev local_frame : List ℕ
local_frame = 1 ∷ 127 ∷ 0 ∷ 0 ∷ 1 ∷ 31 ∷ 144 ∷ []

abbrev scoped : Target
scoped = ip (v6 (replicate 16 0) 53 0 2)

scoped_frame : encode_target scoped ≡ ok (4 ∷ (replicate 16 0 ++ (0 ∷ 53 ∷ [])))
unfolding encode_target encode_target_into encoded_len validate_port
scoped_frame = refl

local_decoded : decode_target (local_frame ++ (9 ∷ [])) ≡ ok (local, 7)
unfolding decode_target decode_ipv4 ip_target validate_port
local_decoded = refl

decode_target-encode_target_example :
    decode_target ((4 ∷ (replicate 16 0 ++ (0 ∷ 53 ∷ []))) ++ (9 ∷ []))
    ≡ ok (ip (v6 (replicate 16 0) 53 0 0), 19)
decode_target-encode_target_example =
    decode_target-encode_target scoped (4 ∷ (replicate 16 0 ++ (0 ∷ 53 ∷ []))) (9 ∷ [])
      (omega arith) scoped_frame

encode_target-decode_target_example :
    (7 ≤ length (local_frame ++ (9 ∷ []))) × (encode_target local ≡ ok local_frame)
encode_target-decode_target_example =
    encode_target-decode_target (local_frame ++ (9 ∷ [])) local 7 (omega arith) local_decoded

read_request-decode_target_example :
    SameTarget in_memory
      (read_request in_memory (local_frame ++ (9 ∷ [])))
      (decode_target (local_frame ++ (9 ∷ [])))
      (local_frame ++ (9 ∷ []))
read_request-decode_target_example = read_request-decode_target in_memory (local_frame ++ (9 ∷ []))

validate_domain_bytes_iff_example : (validate_domain_bytes (b'a' ∷ b'.' ∷ b'b' ∷ []) ≡ ok tt) ↔ (
    (1 ≤ 3)
    × (3 ≤ 253)
    × (labels : List (List ℕ)) × All IsLabel labels
    × (b'a' ∷ b'.' ∷ b'b' ∷ [] ≡ join_dots labels))
validate_domain_bytes_iff_example = validate_domain_bytes_iff (b'a' ∷ b'.' ∷ b'b' ∷ [])
