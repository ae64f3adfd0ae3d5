-- ===== src/Socks/Packet.antt =====
-- UDP relay packets, requests and replies of src/common/socks/protocol.rs: what one side makes and
-- the other reads.
use nowhere.Common.{
  ◌==◌, ◌⊎◌, ◌≢◌, ==_iff, err, Bool-cases, ℕ, ◌+◌, ◌≡◌, ◌≤◌, refl, ap, ◌∙◌, List, [], ◌∷◌, ◌++◌,
  Result-cases, length, drop, drop-append, inl, inr, ok, arith,
}
use nowhere.Protocol.Stream.{AsyncRead, read_exact-append}
use nowhere.Socks.{
  write_reply, read_reply, command_failed, SocksAddress, encode_address, decode_address,
  decode_ipv4_address, decode_ipv6_address, decode_domain_address, encode_udp_packet,
  decode_udp_packet, address_len, parse_udp_header, command_request, read_request,
}
use nowhere.Socks.RoundTrip.{
  IsTypedAddress, unscoped_address, type_of, body_of, encode_address-ok,
  decode_address-encode_address, read_address-encode_address,
}

-- A packet that was made for an address decodes to the address, the fragment number 0 and the
-- payload; only an IPv6 address's flow information and scope come back as zero.
pub decode_udp_packet-encode_udp_packet :
    (a : SocksAddress) (payload packet : List ℕ)
    → IsTypedAddress a
    → encode_udp_packet a payload ≡ ok packet
    → decode_udp_packet packet ≡ ok (unscoped_address a, 0, payload)
unfolding encode_udp_packet decode_udp_packet
decode_udp_packet-encode_udp_packet a payload packet w e = elim (Result-cases (encode_address a)) [
  | inl (bytes, r) ↦
      let shape = encode_address-ok a bytes r in
      let made : packet ≡ 0 ∷ 0 ∷ 0 ∷ type_of a ∷ (body_of a ++ payload) =
        ground (arith, r, shape) in
      rw (made, decode_address-encode_address a bytes payload w r)
        (ap (λ p. ok (unscoped_address a, 0, p))
          (drop-append (length (body_of a)) (body_of a) payload refl))
  | inr (x, r) ↦ cc (rw r at e)
]

address_len-decode_address :
    (t : ℕ) (rest : List ℕ) (a : SocksAddress) (n : ℕ)
    → decode_address (t ∷ rest) t ≡ ok (a, n)
    → (address_len t rest ≡ ok n) × (n ≤ length rest + 1)
unfolding address_len decode_address decode_ipv4_address decode_ipv6_address decode_domain_address
address_len-decode_address t [] a n e = ground arith
address_len-decode_address t (b ∷ rest) a n e = ground arith

-- Where a packet decodes, `parse_udp_header` gives the same fragment number and the length of a
-- header that the packet has, behind which the payload starts.
pub parse_udp_header-decode_udp_packet :
    (packet : List ℕ) (a : SocksAddress) (fragment : ℕ) (payload : List ℕ)
    → decode_udp_packet packet ≡ ok (a, fragment, payload)
    → (n : ℕ) × (parse_udp_header packet ≡ ok (n, fragment))
      × (n ≤ length packet)
      × (payload ≡ drop n packet)
unfolding parse_udp_header decode_udp_packet
parse_udp_header-decode_udp_packet [] a fragment payload e = cc
parse_udp_header-decode_udp_packet (x ∷ []) a fragment payload e = cc
parse_udp_header-decode_udp_packet (x ∷ y ∷ []) a fragment payload e = cc
parse_udp_header-decode_udp_packet (x ∷ y ∷ z ∷ []) a fragment payload e = cc
parse_udp_header-decode_udp_packet (x ∷ y ∷ z ∷ t ∷ rest) a fragment payload e =
    elim (Result-cases (decode_address (t ∷ rest) t)) [
      | inl ((b, n), r) ↦
          let (len, fits) = address_len-decode_address t rest b n r in
          (3 + n, ground (arith, len, r), omega arith, ground (arith, r))
      | inr (error, r) ↦ absurd (ground (arith, r))
    ]

module _ (io : AsyncRead) where
  open io use {Stream, pending}

  -- The request that a client writes for a command and an address, in front of any bytes, is read
  -- by the server with the same command and with the address less the flow information and the
  -- scope of an IPv6 address, which come back as zero; those bytes stay on the stream.
  pub read_request-command_request :
      (command : ℕ) (a : SocksAddress) (bytes rest : List ℕ) (s : Stream)
      → IsTypedAddress a
      → command_request command a ≡ ok bytes
      → pending s ≡ bytes ++ rest
      → (t : Stream) × (read_request io s
          ≡ ok (record { command = command; address = unscoped_address a }, t))
        × (pending t ≡ rest)
  unfolding command_request read_request
  read_request-command_request command a bytes rest s w e p =
      elim (Result-cases (encode_address a)) [
        | inl (encoded, r) ↦
            let shape = encode_address-ok a encoded r in
            let made : bytes ≡ (5 ∷ command ∷ 0 ∷ type_of a ∷ []) ++ body_of a =
              ground (arith, r, shape) in
            let (s', here, next) =
              read_exact-append io 4 s (5 ∷ command ∷ 0 ∷ type_of a ∷ []) (body_of a ++ rest)
                (p ∙ ap (λ b. b ++ rest) made) refl in
            let (t, address, left) = read_address-encode_address io a encoded rest s' w r next in
            (t, rw (here, address) refl, left)
        | inr (x, r) ↦ absurd (ground (arith, r))
      ]

  -- The reply that the server writes, in front of any bytes, is read by the client: one of success
  -- gives the bound address, less the flow information and the scope of an IPv6 address, which come
  -- back as zero, and leaves those bytes on the stream; any other fails as the command.
  pub read_reply-write_reply :
      (reply : ℕ) (a : SocksAddress) (bytes rest : List ℕ) (s : Stream)
      → IsTypedAddress a
      → write_reply reply a ≡ ok bytes
      → pending s ≡ bytes ++ rest
      → ((reply ≡ 0)
          × (t : Stream) × (read_reply io s ≡ ok (unscoped_address a, t))
          × (pending t ≡ rest))
        ⊎ ((reply ≢ 0) × (read_reply io s ≡ err command_failed))
  unfolding write_reply read_reply
  read_reply-write_reply reply a bytes rest s w e p = elim (Result-cases (encode_address a)) [
    | inl (encoded, r) ↦
        let shape = encode_address-ok a encoded r in
        let made : bytes ≡ (5 ∷ reply ∷ 0 ∷ type_of a ∷ []) ++ body_of a =
          ground (arith, r, shape) in
        let (s', here, next) =
          read_exact-append io 4 s (5 ∷ reply ∷ 0 ∷ type_of a ∷ []) (body_of a ++ rest)
            (p ∙ ap (λ b. b ++ rest) made) refl in
        let (t, address, left) = read_address-encode_address io a encoded rest s' w r next in
        elim (Bool-cases (reply == 0)) [
          | inl h ↦ inl ((==_iff reply 0).0 h, t, rw (here, h) address, left)
          | inr h ↦ inr (λ z. ground (arith, h, z), rw (here, h) refl)
        ]
    | inr (x, r) ↦ absurd (ground (arith, r))
  ]
