-- ===== src/Socks/RoundTrip.antt =====
-- Addresses of src/common/socks/protocol.rs: `encode_address` with `decode_address` and
-- `read_address`.
use nowhere.Common.{
  ℕ, ◌≡◌, ◌<◌, refl, ap, ◌∙◌, List, [], ◌∷◌, ◌++◌, ◌==◌, true, false, length, take-append,
  drop-append, length-append, append_assoc, ok, arith,
}
use nowhere.Common.Bytes.{u16_bytes, u16_at, u16_at-u16_bytes}
use nowhere.Protocol.Domain.{is_ascii}
use nowhere.Protocol.Target.{v4, v6}
use nowhere.Protocol.Target.RoundTrip.{cut}
use nowhere.Protocol.Stream.{AsyncRead, read_exact-append}
use nowhere.Socks.{
  SocksAddress, socks_ip, socks_domain, encode_address, decode_ipv4_address, decode_ipv6_address,
  decode_domain_address, decode_address, read_ipv4_address, read_ipv6_address, read_domain_address,
  read_address,
}

-- The types that Rust gives the parts of an address.
abbrev pub IsTypedAddress : SocksAddress → Type 0
IsTypedAddress (socks_ip (v4 octets port)) = (length octets ≡ 4) × (port < 65_536)
IsTypedAddress (socks_ip (v6 octets port flowinfo scope)) = (length octets ≡ 16) × (port < 65_536)
IsTypedAddress (socks_domain host port) = port < 65_536

-- An address without an IPv6 address's flow information and scope, which no message carries.
abbrev pub unscoped_address : SocksAddress → SocksAddress
unscoped_address (socks_ip (v4 octets port)) = socks_ip (v4 octets port)
unscoped_address (socks_ip (v6 octets port flowinfo scope)) = socks_ip (v6 octets port 0 0)
unscoped_address (socks_domain host port) = socks_domain host port

-- The address type and what follows it.
abbrev pub type_of : SocksAddress → ℕ
type_of (socks_ip (v4 octets port)) = 1
type_of (socks_ip (v6 octets port flowinfo scope)) = 4
type_of (socks_domain host port) = 3

abbrev pub body_of : SocksAddress → List ℕ
body_of (socks_ip (v4 octets port)) = octets ++ u16_bytes port
body_of (socks_ip (v6 octets port flowinfo scope)) = octets ++ u16_bytes port
body_of (socks_domain host port) = length host ∷ (host ++ u16_bytes port)

pub encode_address-ok :
    (a : SocksAddress) (bytes : List ℕ)
    → encode_address a ≡ ok bytes
    → bytes ≡ type_of a ∷ body_of a
unfolding encode_address
encode_address-ok (socks_ip (v4 octets port)) bytes e = ground arith
encode_address-ok (socks_ip (v6 octets port flowinfo scope)) bytes e = ground arith
encode_address-ok (socks_domain host port) bytes e = ground arith

-- An address that was encoded in front of any bytes is decoded with the length of its encoding;
-- only an IPv6 address's flow information and scope come back as zero.
pub decode_address-encode_address :
    (a : SocksAddress) (bytes rest : List ℕ)
    → IsTypedAddress a
    → encode_address a ≡ ok bytes
    → decode_address (type_of a ∷ (body_of a ++ rest)) (type_of a)
      ≡ ok (unscoped_address a, length (type_of a ∷ body_of a))
unfolding encode_address decode_address decode_ipv4_address decode_ipv6_address
    decode_domain_address
decode_address-encode_address (socks_ip (v4 octets port)) bytes rest w e =
    let (a, p, l) = cut 4 octets port rest w.0 w.1 in
    ground (arith, length-append octets (u16_bytes port))
decode_address-encode_address (socks_ip (v6 octets port flowinfo scope)) bytes rest w e =
    let (a, p, l) = cut 16 octets port rest w.0 w.1 in
    ground (arith, length-append octets (u16_bytes port))
decode_address-encode_address (socks_domain host port) bytes rest w e =
    let (a, p, l) = cut (length host) host port rest refl w in
    ground (arith, length-append host (u16_bytes port))

encoded_host :
    (host : List ℕ) (port : ℕ) (bytes : List ℕ)
    → encode_address (socks_domain host port) ≡ ok bytes
    → ((length host == 0) ≡ false) × (is_ascii host ≡ true)
unfolding encode_address
encoded_host [] port bytes e = cc
encoded_host (b ∷ host) port bytes e = ground arith

module _ (io : AsyncRead) where
  open io use {Stream, pending}

  -- Behind its type, an encoded address is read from a stream, and what follows stays there.
  pub read_address-encode_address :
      (a : SocksAddress) (bytes rest : List ℕ) (s : Stream)
      → IsTypedAddress a
      → encode_address a ≡ ok bytes
      → pending s ≡ body_of a ++ rest
      → (t : Stream) × (read_address io s (type_of a) ≡ ok (unscoped_address a, t))
        × (pending t ≡ rest)
  unfolding encode_address read_address read_ipv4_address read_ipv6_address read_domain_address
  read_address-encode_address (socks_ip (v4 octets port)) bytes rest s w e h =
      let value = octets ++ u16_bytes port in
      let size : length value ≡ 6 = omega (arith, w.0, length-append octets (u16_bytes port)) in
      let (t, r, q) = read_exact-append io 6 s value rest h size in
      let front = take-append 4 octets (u16_bytes port) w.0 in
      let back =
        ap u16_at (drop-append 4 octets (u16_bytes port) w.0) ∙ u16_at-u16_bytes port [] w.1 in
      (t, rw (r, front, back) refl, q)
  read_address-encode_address (socks_ip (v6 octets port flowinfo scope)) bytes rest s w e h =
      let value = octets ++ u16_bytes port in
      let size : length value ≡ 18 = omega (arith, w.0, length-append octets (u16_bytes port)) in
      let (t, r, q) = read_exact-append io 18 s value rest h size in
      let front = take-append 16 octets (u16_bytes port) w.0 in
      let back =
        ap u16_at (drop-append 16 octets (u16_bytes port) w.0) ∙ u16_at-u16_bytes port [] w.1 in
      (t, rw (r, front, back) refl, q)
  read_address-encode_address (socks_domain host port) bytes rest s w e h =
      let (t, r, p) =
        read_exact-append io 1 s (length host ∷ []) (host ++ (u16_bytes port ++ rest))
          (h ∙ ap (◌∷◌ (length host)) (append_assoc host (u16_bytes port) rest)) refl in
      let (t', r', p') =
        read_exact-append io (length host) t host (u16_bytes port ++ rest) p refl in
      let (t'', r'', p'') = read_exact-append io 2 t' (u16_bytes port) rest p' refl in
      let (filled, ascii) = encoded_host host port bytes e in
      (
        t'',
        rw (r, filled, r', ascii, r'')
            (ap (λ n. ok (socks_domain host n, t'')) (u16_at-u16_bytes port [] w)),
        p'',
      )
