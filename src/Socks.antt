-- ===== src/Socks.antt =====
-- src/common/socks/protocol.rs: the SOCKS5 messages of the inbound server and of the outbound
-- client. A slice is a list of bytes; what a call writes is a list that it returns.
pub mod RoundTrip
pub mod Packet
pub mod Negotiate
pub mod Dialogue
pub mod ConstantTime
pub mod Logins
pub mod Agreement
mod Tests
mod NegotiateTests
use nowhere.Common.{
  ℕ, ◌+◌, List, [], ◌∷◌, ◌++◌, Option, none, some, Bool, true, false, not, ◌==◌, ltb, leb, ◌&&◌,
  ◌||◌, if◌then◌else◌, length, take, drop, all, is_empty, get_elem?, Result, ok, err, ◌>>=◌, ◌>>◌,
  bail_if, ok_or,
}
use nowhere.Common.Bytes.{u16_bytes, u16_at}
use nowhere.Protocol.Stream.{AsyncRead}
use nowhere.Protocol.Domain.{is_ascii}
use nowhere.Protocol.Target.{SocketAddr, v4, v6, addr_port, Target, ip, domain}

pub data SocksError : Type 0 where
  invalid_response command_failed invalid_request_header : SocksError
  invalid_udp_header truncated_udp_header truncated_domain unsupported_address : SocksError
  invalid_reserved invalid_domain empty_domain domain_not_ascii : SocksError
  truncated_ipv4 truncated_ipv6 invalid_domain_length socks_read_failed : SocksError

abbrev pub socks_version : ℕ
socks_version = 5

abbrev pub reply_succeeded : ℕ
reply_succeeded = 0

abbrev pub address_ipv4 : ℕ
address_ipv4 = 1

abbrev pub address_domain : ℕ
address_domain = 3

abbrev pub address_ipv6 : ℕ
address_ipv6 = 4

pub data SocksAddress : Type 0 where
  socks_ip : SocketAddr → SocksAddress
  socks_domain : List ℕ → ℕ → SocksAddress

-- `SocksAddress::from_target`
pub from_target : Target → SocksAddress
from_target (ip address) = socks_ip address
from_target (domain host port) = socks_domain host port

-- `SocksAddress::port`
pub socks_port : SocksAddress → ℕ
socks_port (socks_ip address) = addr_port address
socks_port (socks_domain host port) = port

-- `encode_address`: the bytes that it appends to the buffer.
pub encode_address : SocksAddress → Result SocksError (List ℕ)
encode_address (socks_ip (v4 octets port)) = ok (address_ipv4 ∷ (octets ++ u16_bytes port))
encode_address (socks_ip (v6 octets port flowinfo scope)) =
    ok (address_ipv6 ∷ (octets ++ u16_bytes port))
encode_address (socks_domain host port) = do
  bail_if (is_empty host || ltb 255 (length host) || not (is_ascii host)) invalid_domain
  ok (address_domain ∷ length host ∷ (host ++ u16_bytes port))

decode_ipv4_address : List ℕ → Result SocksError (SocksAddress × ℕ)
decode_ipv4_address packet = do
  bail_if (ltb (length packet) 7) truncated_ipv4
  ok (socks_ip (v4 (take 4 (drop 1 packet)) (u16_at (drop 5 packet))), 7)

decode_ipv6_address : List ℕ → Result SocksError (SocksAddress × ℕ)
decode_ipv6_address packet = do
  bail_if (ltb (length packet) 19) truncated_ipv6
  ok (socks_ip (v6 (take 16 (drop 1 packet)) (u16_at (drop 17 packet)) 0 0), 19)

-- `packet[2..2 + length]` is the first `host_len` bytes behind the first two.
decode_domain_address : List ℕ → Result SocksError (SocksAddress × ℕ)
decode_domain_address packet = do
  host_len ← ok_or (get_elem? packet 1) truncated_domain
  bail_if (host_len == 0 || ltb (length packet) (host_len + 4)) invalid_domain_length
  let tail = drop 2 packet
  bail_if (not (is_ascii (take host_len tail))) domain_not_ascii
  ok (socks_domain (take host_len tail) (u16_at (drop host_len tail)), host_len + 4)

pub decode_address : List ℕ → ℕ → Result SocksError (SocksAddress × ℕ)
decode_address packet address_type =
    if address_type == address_ipv4
    then decode_ipv4_address packet
    else if address_type == address_ipv6
    then decode_ipv6_address packet
    else if address_type == address_domain
    then decode_domain_address packet
    else err unsupported_address

-- `udp_header`; three zero bytes are the reserved field and the fragment number.
pub udp_header : SocksAddress → Result SocksError (List ℕ)
unfolding encode_address
udp_header target = do address ← encode_address target; ok (0 ∷ 0 ∷ 0 ∷ address)

-- `encode_udp_packet_into`: what the buffer holds after it.
pub encode_udp_packet : SocksAddress → List ℕ → Result SocksError (List ℕ)
unfolding encode_address
encode_udp_packet target payload = do
  address ← encode_address target
  ok (0 ∷ 0 ∷ 0 ∷ (address ++ payload))

-- The address and the fragment number of a packet, and its payload.
pub decode_udp_packet : List ℕ → Result SocksError (SocksAddress × ℕ × List ℕ)
decode_udp_packet (a ∷ b ∷ fragment ∷ address_type ∷ rest) = do
  bail_if (not (a == 0) || not (b == 0)) invalid_reserved
  (address, consumed) ← decode_address (address_type ∷ rest) address_type
  ok (address, fragment, drop consumed (address_type ∷ rest))
decode_udp_packet _ = err invalid_reserved

-- The `match` of `parse_udp_header` on the address type, on the bytes behind it.
address_len : ℕ → List ℕ → Result SocksError ℕ
address_len address_type rest =
    if address_type == address_ipv4
    then ok 7
    else if address_type == address_ipv6
    then ok 19
    else if address_type == address_domain
    then (ok_or (get_elem? rest 0) truncated_domain >>= λ host_len. ok (host_len + 4))
    else err unsupported_address

-- The length of a packet's header, and its fragment number.
pub parse_udp_header : List ℕ → Result SocksError (ℕ × ℕ)
parse_udp_header (a ∷ b ∷ fragment ∷ address_type ∷ rest) = do
  bail_if (not (a == 0) || not (b == 0)) invalid_udp_header
  len ← address_len address_type rest
  let header_len = 3 + len
  bail_if (ltb (length rest + 4) header_len) truncated_udp_header
  ok (header_len, fragment)
parse_udp_header _ = err invalid_udp_header

-- What `send_command` writes.
pub command_request : ℕ → SocksAddress → Result SocksError (List ℕ)
unfolding encode_address
command_request command target = do
  address ← encode_address target
  ok (socks_version ∷ command ∷ 0 ∷ address)

-- What `write_reply` writes.
pub write_reply : ℕ → SocksAddress → Result SocksError (List ℕ)
unfolding encode_address
write_reply reply target = do
  address ← encode_address target
  ok (socks_version ∷ reply ∷ 0 ∷ address)

pub record SocksRequest : Type 0 where
  pub command : ℕ
  pub address : SocksAddress

module _ (io : AsyncRead) where
  open io use {Stream, read_exact}

  read_ipv4_address : Stream → Result SocksError (SocksAddress × Stream)
  read_ipv4_address s = do
    (value, s') ← ok_or (read_exact 6 s) socks_read_failed
    ok (socks_ip (v4 (take 4 value) (u16_at (drop 4 value))), s')

  read_ipv6_address : Stream → Result SocksError (SocksAddress × Stream)
  read_ipv6_address s = do
    (value, s') ← ok_or (read_exact 18 s) socks_read_failed
    ok (socks_ip (v6 (take 16 value) (u16_at (drop 16 value)) 0 0), s')

  read_domain_address : Stream → Result SocksError (SocksAddress × Stream)
  read_domain_address s = do
    (len, s') ← ok_or (read_exact 1 s) socks_read_failed
    host_len ← ok_or (get_elem? len 0) socks_read_failed
    bail_if (host_len == 0) empty_domain
    (host, s'') ← ok_or (read_exact host_len s') socks_read_failed
    bail_if (not (is_ascii host)) domain_not_ascii
    (port, t) ← ok_or (read_exact 2 s'') socks_read_failed
    ok (socks_domain host (u16_at port), t)

  -- `read_u8` and `read_u16` read the bytes of a big-endian integer.
  pub read_address : Stream → ℕ → Result SocksError (SocksAddress × Stream)
  read_address s address_type =
      if address_type == address_ipv4
      then read_ipv4_address s
      else if address_type == address_ipv6
      then read_ipv6_address s
      else if address_type == address_domain
      then read_domain_address s
      else err unsupported_address

  -- `read_request`: the bytes of the header are its version, command, reserved byte and address
  -- type.
  pub read_request : Stream → Result SocksError (SocksRequest × Stream)
  read_request s = do
    (header, s') ← ok_or (read_exact 4 s) socks_read_failed
    elim header [
      | a ∷ command ∷ reserved ∷ address_type ∷ _ ↦
          bail_if (not (a == socks_version) || not (reserved == 0)) invalid_request_header
          >> (read_address s' address_type >>= λ r.
              ok (record { command = command; address = r.0 }, r.1))
      | _ ↦ err socks_read_failed
    ]

  -- What `send_command` reads once its request is written.
  pub read_reply : Stream → Result SocksError (SocksAddress × Stream)
  read_reply s = do
    (header, s') ← ok_or (read_exact 4 s) socks_read_failed
    elim header [
      | a ∷ reply ∷ reserved ∷ address_type ∷ _ ↦
          bail_if (not (a == socks_version) || not (reserved == 0)) invalid_response
          >> (bail_if (not (reply == reply_succeeded)) command_failed
              >> read_address s' address_type)
      | _ ↦ err socks_read_failed
    ]
