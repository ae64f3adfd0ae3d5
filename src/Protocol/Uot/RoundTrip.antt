-- ===== src/Protocol/Uot/RoundTrip.antt =====
-- src/protocol/uot.rs: the reader against a plain parser, and against the packets that the writer
-- makes.
use nowhere.Common.{ℕ, ◌<◌, ◌≡◌, refl, ap, ◌∙◌, List, [], ◌∷◌, ◌++◌, arith}
use nowhere.Common.{Option, none, some, Result, ok, err, ltb, if◌then◌else◌, length, take, drop}
use nowhere.Common.{
  inl, inr, take-append, drop-append, take-append-drop, length-take, length-append,
}
use nowhere.Common.Bytes.{AreBytes, u16_of, u16_bytes}
use nowhere.Protocol.Error.{Error, truncated_length, truncated_payload}
use nowhere.Protocol.Stream.{
  AsyncRead, Agrees, Agrees-ok, ok-Agrees, ReadExact-cases, read_exact-append,
}
use nowhere.Protocol.Uot.{read_payload, read_packet_tail, read_udp_packet, write_udp_packet}

-- One packet in front of a byte string, with no stream: the length, then that many bytes.
abbrev pub parse_packet : List ℕ → Result Error (Option (List ℕ) × List ℕ)
parse_packet [] = ok (none, [])
parse_packet (high ∷ []) = err truncated_length
parse_packet (high ∷ low ∷ rest) =
    let n = u16_of high low in
    if ltb (length rest) n then err truncated_payload else ok (some (take n rest), drop n rest)

-- The frame of a packet that fits: its length, then its bytes.
write-eq_frame :
    (payload frame : List ℕ)
    → write_udp_packet payload ≡ ok frame
    → (length payload < 65_536) × (frame ≡ u16_bytes (length payload) ++ payload)
unfolding write_udp_packet
write-eq_frame payload frame h = ground arith

parse_packet-frame :
    (payload rest : List ℕ)
    → length payload < 65_536
    → parse_packet ((u16_bytes (length payload) ++ payload) ++ rest) ≡ ok (some payload, rest)
parse_packet-frame payload rest h = ground (
  arith,
  length-append payload rest,
  take-append (length payload) payload rest refl,
  drop-append (length payload) payload rest refl,
)

frame-parse_packet :
    (bytes payload rest : List ℕ)
    → AreBytes bytes
    → parse_packet bytes ≡ ok (some payload, rest)
    → (length payload < 65_536) × (bytes ≡ u16_bytes (length payload) ++ (payload ++ rest))
frame-parse_packet [] payload rest h e = cc
frame-parse_packet (high ∷ []) payload rest h e = cc
frame-parse_packet (high ∷ low ∷ tail) payload rest h e =
    let n = u16_of high low in ground (arith, length-take n tail, take-append-drop n tail)

module _ (io : AsyncRead) where
  open io use {Stream, pending}

  payload-Agrees :
      (high low : ℕ) (s : Stream) (rest : List ℕ)
      → pending s ≡ rest
      → Agrees io (read_payload io high low s) (parse_packet (high ∷ low ∷ rest))
  unfolding read_payload
  payload-Agrees high low s rest e = elim (ReadExact-cases io (u16_of high low) s) [
    | inl (h, r) ↦ ground (arith, ap length e)
    | inr (t, h, r, p) ↦ ground (arith, ap length e)
  ]

  tail-Agrees :
      (high : ℕ) (s : Stream) (bytes : List ℕ)
      → pending s ≡ bytes
      → Agrees io (read_packet_tail io high s) (parse_packet (high ∷ bytes))
  unfolding read_packet_tail
  tail-Agrees high s [] e = rw (io.read_exact_end 1 s (omega (arith, ap length e))) refl
  tail-Agrees high s (low ∷ rest) e =
      let (t, r, p) = read_exact-append io 1 s (low ∷ []) rest e refl in
      rw r (payload-Agrees high low t rest p)

  packet-Agrees :
      (s : Stream) (bytes : List ℕ)
      → pending s ≡ bytes
      → Agrees io (read_udp_packet io s) (parse_packet bytes)
  unfolding read_udp_packet
  packet-Agrees s [] e = let (t, r, p) = io.read_end s e in rw r (refl, p)
  packet-Agrees s (high ∷ rest) e =
      let (t, r, p) = io.read_some s high rest e in rw r (tail-Agrees high t rest p)

  -- On every stream, `read_udp_packet` gives what the plain parser gives on the bytes to come:
  -- the same packet or clean end, the same error, and the same bytes left on the stream.
  pub read_udp_packet-Agrees :
      (s : Stream) → Agrees io (read_udp_packet io s) (parse_packet (pending s))
  read_udp_packet-Agrees s = packet-Agrees s (pending s) refl

  -- A packet that `write_udp_packet` put in front of any bytes is read back whole, and those
  -- bytes stay on the stream.
  pub read_udp_packet-write_udp_packet :
      (payload frame rest : List ℕ) (s : Stream)
      → write_udp_packet payload ≡ ok frame
      → pending s ≡ frame ++ rest
      → (t : Stream) × (read_udp_packet io s ≡ ok (some payload, t)) × (pending t ≡ rest)
  read_udp_packet-write_udp_packet payload frame rest s w e =
      let (fits, shape) = write-eq_frame payload frame w in
      Agrees-ok io _ _ (packet-Agrees s _ (e ∙ ap (λ xs. xs ++ rest) shape))
        (parse_packet-frame payload rest fits)

  -- A packet is read only where the bytes to come start with the frame that `write_udp_packet`
  -- makes of it.
  pub read_udp_packet_exact :
      (payload : List ℕ) (s t : Stream)
      → AreBytes (pending s)
      → read_udp_packet io s ≡ ok (some payload, t)
      → (frame : List ℕ) × (write_udp_packet payload ≡ ok frame) × (pending s ≡ frame ++ pending t)
  unfolding write_udp_packet
  read_udp_packet_exact payload s t b r =
      let (fits, shape) =
        frame-parse_packet (pending s) payload (pending t) b
          (ok-Agrees io _ _ (read_udp_packet-Agrees s) r) in
      (u16_bytes (length payload) ++ payload, ground arith, shape)
