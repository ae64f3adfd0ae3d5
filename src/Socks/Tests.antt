-- ===== src/Socks/Tests.antt =====
-- Runs of the SOCKS5 messages: the domain `a.b`, port 80.
use nowhere.Common.{◌≢◌, ◌⊎◌, err, ℕ, ◌≡◌, ◌≤◌, refl, List, [], ◌∷◌, ◌++◌, length, drop, ok, arith}
use nowhere.Protocol.Stream.{in_memory}
use nowhere.Socks.{
  reply_succeeded, write_reply, read_reply, command_failed, SocksAddress, socks_domain,
  encode_address, encode_udp_packet, decode_udp_packet, parse_udp_header, command_request,
  read_request,
}
use nowhere.Socks.RoundTrip.{unscoped_address}
use nowhere.Socks.Packet.{
  read_reply-write_reply, decode_udp_packet-encode_udp_packet, parse_udp_header-decode_udp_packet,
  read_request-command_request,
}

abbrev host : List ℕ
host = b'a' ∷ b'.' ∷ b'b' ∷ []

abbrev target : SocksAddress
target = socks_domain host 80

abbrev body : List ℕ
body = 3 ∷ b'a' ∷ b'.' ∷ b'b' ∷ 0 ∷ 80 ∷ []

abbrev packet : List ℕ
packet = 0 ∷ 0 ∷ 0 ∷ 3 ∷ (body ++ (9 ∷ 8 ∷ []))

encoded : encode_address target ≡ ok (3 ∷ body)
unfolding encode_address
encoded = refl

packed : encode_udp_packet target (9 ∷ 8 ∷ []) ≡ ok packet
unfolding encode_udp_packet encode_address
packed = refl

decode_udp_packet-encode_udp_packet_example :
    decode_udp_packet packet ≡ ok (unscoped_address target, 0, 9 ∷ 8 ∷ [])
decode_udp_packet-encode_udp_packet_example =
    decode_udp_packet-encode_udp_packet target (9 ∷ 8 ∷ []) packet (omega arith) packed

parse_udp_header-decode_udp_packet_example :
    (n : ℕ) × (parse_udp_header packet ≡ ok (n, 0))
    × (n ≤ length packet)
    × ((9 ∷ 8 ∷ []) ≡ drop n packet)
parse_udp_header-decode_udp_packet_example =
    parse_udp_header-decode_udp_packet packet target 0 (9 ∷ 8 ∷ [])
      decode_udp_packet-encode_udp_packet_run
  where
    decode_udp_packet-encode_udp_packet_run : decode_udp_packet packet ≡ ok (target, 0, 9 ∷ 8 ∷ [])
    decode_udp_packet-encode_udp_packet_run =
        decode_udp_packet-encode_udp_packet target (9 ∷ 8 ∷ []) packet (omega arith) packed

abbrev request : List ℕ
request = 5 ∷ 1 ∷ 0 ∷ 3 ∷ body

requested : command_request 1 target ≡ ok request
unfolding command_request encode_address
requested = refl

read_request-command_request_example :
    (t : List ℕ) × (read_request in_memory (request ++ (7 ∷ []))
      ≡ ok (record { command = 1; address = target }, t))
    × (t ≡ 7 ∷ [])
read_request-command_request_example =
    read_request-command_request in_memory 1 target request (7 ∷ []) (request ++ (7 ∷ []))
      (omega arith) requested refl

abbrev reply : List ℕ
reply = 5 ∷ 0 ∷ 0 ∷ 3 ∷ body

replied : write_reply 0 target ≡ ok reply
unfolding write_reply encode_address
replied = refl

read_reply-write_reply_example :
    ((reply_succeeded ≡ 0)
      × (t : List ℕ) × (read_reply in_memory (reply ++ (7 ∷ [])) ≡ ok (target, t))
      × (t ≡ 7 ∷ []))
    ⊎ ((reply_succeeded ≢ 0) × (read_reply in_memory (reply ++ (7 ∷ [])) ≡ err command_failed))
read_reply-write_reply_example =
    read_reply-write_reply in_memory 0 target reply (7 ∷ []) (reply ++ (7 ∷ [])) (omega arith)
      replied refl
