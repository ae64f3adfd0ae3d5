-- ===== src/Protocol/Target.antt =====
-- src/protocol/request.rs: the destination of a flow, as SOCKS5 writes addresses. Textual targets
-- (`Display`, `FromStr`) are not modelled.
pub mod RoundTrip
pub mod Stream
mod Tests
use nowhere.Common.{
  ℕ, ◌+◌, ◌≡◌, ◌<◌, List, [], ◌∷◌, ◌++◌, Bool, true, false, ◌==◌, ltb, ◌||◌, if◌then◌else◌, length,
  take, drop, replicate, get_elem?, Result, ok, err, ◌>>=◌, ◌>>◌, ok_or, bail_if,
}
use nowhere.Common.Bytes.{AreBytes, u16_bytes, u16_at}
use nowhere.Protocol.Error.{
  Error, output_too_short, missing_address_type, missing_domain_length, truncated_target,
  truncated_domain, truncated_domain_port, unknown_address_type, invalid_domain_length, read_failed,
}
use nowhere.Protocol.Domain.{validate_domain_bytes, validate_port, domain_len_max}
use nowhere.Protocol.Stream.{AsyncRead}

abbrev pub target_atyp_ipv4 : ℕ
target_atyp_ipv4 = 0x01

abbrev pub target_atyp_domain : ℕ
target_atyp_domain = 0x03

abbrev pub target_atyp_ipv6 : ℕ
target_atyp_ipv6 = 0x04

abbrev pub target_ipv4_len : ℕ
target_ipv4_len = 1 + 4 + 2

abbrev pub target_ipv6_len : ℕ
target_ipv6_len = 1 + 16 + 2

abbrev pub target_max_encoded_len : ℕ
target_max_encoded_len = 1 + 1 + domain_len_max + 2

-- `std::net::SocketAddr`: octets and port, and of an IPv6 address flow information and scope.
pub data SocketAddr : Type 0 where
  v4 : List ℕ → ℕ → SocketAddr
  v6 : List ℕ → ℕ → ℕ → ℕ → SocketAddr

abbrev pub addr_port : SocketAddr → ℕ
addr_port (v4 octets port) = port
addr_port (v6 octets port flowinfo scope) = port

pub data Target : Type 0 where
  ip : SocketAddr → Target
  domain : List ℕ → ℕ → Target

-- `Target::ip`
pub ip_target : SocketAddr → Result Error Target
ip_target address = do validate_port (addr_port address); ok (ip address)

-- `Target::domain`
pub domain_target : List ℕ → ℕ → Result Error Target
domain_target host port = do validate_domain_bytes host; validate_port port; ok (domain host port)

-- `Target::encoded_len`
pub encoded_len : Target → Result Error ℕ
encoded_len (ip (v4 octets port)) = do validate_port port; ok target_ipv4_len
encoded_len (ip (v6 octets port flowinfo scope)) = do validate_port port; ok target_ipv6_len
encoded_len (domain host port) = do
  validate_domain_bytes host
  validate_port port
  ok (length host + 4)

-- What the writes of `encode_target_into` put into the first `encoded_len` bytes of the output.
abbrev pub wire_bytes : Target → List ℕ
wire_bytes (ip (v4 octets port)) = target_atyp_ipv4 ∷ (octets ++ u16_bytes port)
wire_bytes (ip (v6 octets port flowinfo scope)) = target_atyp_ipv6 ∷ (octets ++ u16_bytes port)
wire_bytes (domain host port) = target_atyp_domain ∷ length host ∷ (host ++ u16_bytes port)

-- The output after the call, and the length that is returned.
pub encode_target_into : Target → List ℕ → Result Error (List ℕ × ℕ)
encode_target_into target output = do
  needed ← encoded_len target
  bail_if (ltb (length output) needed) output_too_short
  ok (wire_bytes target ++ drop needed output, needed)

-- Also `write_request_frame`.
pub encode_target : Target → Result Error (List ℕ)
encode_target target = do
  needed ← encoded_len target
  (output, written) ← encode_target_into target (replicate needed 0)
  ok output

-- The bytes that `write_request` hands to the writer.
pub write_request : Target → Result Error (List ℕ)
write_request target = do
  (encoded, written) ← encode_target_into target (replicate target_max_encoded_len 0)
  ok (take written encoded)

decode_ipv4 : List ℕ → Result Error (Target × ℕ)
decode_ipv4 input = do
  bail_if (ltb (length input) target_ipv4_len) truncated_target
  target ← ip_target (v4 (take 4 (drop 1 input)) (u16_at (drop 5 input)))
  ok (target, target_ipv4_len)

decode_ipv6 : List ℕ → Result Error (Target × ℕ)
decode_ipv6 input = do
  bail_if (ltb (length input) target_ipv6_len) truncated_target
  target ← ip_target (v6 (take 16 (drop 1 input)) (u16_at (drop 17 input)) 0 0)
  ok (target, target_ipv6_len)

-- `input[2 .. 2 + n]` is the first `n` bytes behind the first two.
decode_domain : List ℕ → Result Error (Target × ℕ)
decode_domain input = do
  domain_len ← ok_or (get_elem? input 1) missing_domain_length
  let tail = drop 2 input
  bail_if (ltb (length tail) domain_len) truncated_domain
  validate_domain_bytes (take domain_len tail)
  bail_if (ltb (length input) (domain_len + 4)) truncated_domain_port
  target ← domain_target (take domain_len tail) (u16_at (drop domain_len tail))
  ok (target, domain_len + 4)

pub decode_target : List ℕ → Result Error (Target × ℕ)
decode_target [] = err missing_address_type
decode_target (address_type ∷ rest) =
    let input = address_type ∷ rest in
    if address_type == target_atyp_ipv4
    then decode_ipv4 input
    else if address_type == target_atyp_ipv6
    then decode_ipv6 input
    else if address_type == target_atyp_domain
    then decode_domain input
    else err unknown_address_type

module _ (io : AsyncRead) where
  open io use {Stream, read_exact}

  -- The rest of the target behind its first bytes, decoded together with them.
  read_tail : ℕ → List ℕ → Stream → Result Error (Target × Stream)
  read_tail n front s = do
    (tail, s') ← ok_or (read_exact n s) read_failed
    (target, _) ← decode_target (front ++ tail)
    ok (target, s')

  read_domain : Stream → Result Error (Target × Stream)
  read_domain s = do
    (bytes, s') ← ok_or (read_exact 1 s) read_failed
    domain_len ← ok_or (get_elem? bytes 0) read_failed
    bail_if (domain_len == 0 || ltb domain_len_max domain_len) invalid_domain_length
    read_tail (domain_len + 2) (target_atyp_domain ∷ domain_len ∷ []) s'

  pub read_request : Stream → Result Error (Target × Stream)
  read_request s = do
    (bytes, s') ← ok_or (read_exact 1 s) read_failed
    address_type ← ok_or (get_elem? bytes 0) read_failed
    if address_type == target_atyp_ipv4
        then read_tail 6 (target_atyp_ipv4 ∷ []) s'
        else if address_type == target_atyp_ipv6
        then read_tail 18 (target_atyp_ipv6 ∷ []) s'
        else if address_type == target_atyp_domain
        then read_domain s'
        else err unknown_address_type
