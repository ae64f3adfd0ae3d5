-- ===== src/Protocol/Uot.antt =====
-- src/protocol/uot.rs: packets with a two-byte length, one after the other on a stream.
pub mod RoundTrip
mod Tests
use nowhere.Common.{ℕ, ◌≡◌, List, [], ◌∷◌, ◌++◌, Option, none, some, ltb, if◌then◌else◌, length}
use nowhere.Common.{Result, ok, err, ◌>>=◌, ok_or}
use nowhere.Common.Bytes.{u16_bytes, u16_of}
use nowhere.Protocol.Error.{Error, payload_too_large, truncated_length, truncated_payload}
use nowhere.Protocol.Error.{read_failed}
use nowhere.Protocol.Stream.{AsyncRead}

abbrev pub uot_packet_max : ℕ
uot_packet_max = 65_535

pub encode_udp_packet_header : ℕ → Result Error (List ℕ)
encode_udp_packet_header payload_len =
    if ltb uot_packet_max payload_len then err payload_too_large else ok (u16_bytes payload_len)

pub encode_udp_packet : List ℕ → Result Error (List ℕ)
unfolding encode_udp_packet_header
encode_udp_packet payload = do
  header ← encode_udp_packet_header (length payload)
  ok (header ++ payload)

-- The bytes that `write_udp_packet` hands to the writer: a chain of header and payload.
pub write_udp_packet : List ℕ → Result Error (List ℕ)
unfolding encode_udp_packet_header
write_udp_packet payload = do
  header ← encode_udp_packet_header (length payload)
  ok (header ++ payload)

module _ (io : AsyncRead) where
  open io use {Stream, read, read_exact}

  read_payload : ℕ → ℕ → Stream → Result Error (Option (List ℕ) × Stream)
  read_payload first second s = do
    (payload, s') ← ok_or (read_exact (u16_of first second) s) truncated_payload
    ok (some payload, s')

  read_packet_tail : ℕ → Stream → Result Error (Option (List ℕ) × Stream)
  read_packet_tail first s = do
    (second, s') ← ok_or (read_exact 1 s) truncated_length
    elim second [ [] ↦ err truncated_length | byte ∷ _ ↦ read_payload first byte s' ]

  -- `read_udp_packet_into` and its wrapper `read_udp_packet`: the payload, or `none` at a clean
  -- end of the stream.
  pub read_udp_packet : Stream → Result Error (Option (List ℕ) × Stream)
  read_udp_packet s = do
    (first, s') ← ok_or (read 1 s) read_failed
    elim first [ [] ↦ ok (none, s') | byte ∷ _ ↦ read_packet_tail byte s' ]
