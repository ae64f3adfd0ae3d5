-- ===== src/Protocol/Datagram.antt =====
-- src/protocol/datagram.rs, first half: the frames of UDP packets in QUIC DATAGRAMs, and the split
-- of a large packet into fragments. Reassembly is `Protocol.Reassembly`.
pub mod Frames
pub mod Split
pub mod SplitDecode
mod Tests
use Prim.Native.Nat.{bit_and}
use nowhere.Common.{
  ℕ, zero, suc, ◌+◌, ◌-◌, ◌*◌, ◌/◌, ◌≡◌, ◌<◌, min, List, [], ◌∷◌, ◌++◌, Bool, true, false, not,
  ◌==◌, ltb, leb, ◌&&◌, ◌||◌, if◌then◌else◌, length, take, drop, is_empty, Option, none, some,
  Result, ok, err, ◌>>=◌, ◌>>◌, bail_if,
}
use nowhere.Common.Bytes.{u16_bytes, u16_of, u32_bytes, u32_of}
use nowhere.Protocol.Error.{
  Error, zero_flow_id, zero_packet_id, payload_too_large, invalid_fragment_index, zero_total_length,
  total_below_count, limit_below_header, must_be_unfragmented, no_fragment_capacity,
  invalid_fragment_count, short_header, reserved_flags, invalid_frame_type, close_payload,
  short_fragment_header, invalid_fragment_payload,
}

abbrev pub udp_frame_data : ℕ
udp_frame_data = 0

abbrev pub udp_frame_fragment : ℕ
udp_frame_fragment = 1

abbrev pub udp_frame_close : ℕ
udp_frame_close = 2

abbrev pub udp_header_len : ℕ
udp_header_len = 5

abbrev pub udp_fragment_header_len : ℕ
udp_fragment_header_len = 13

abbrev pub udp_packet_max : ℕ
udp_packet_max = 65_535

abbrev pub frame_type_mask : ℕ
frame_type_mask = 0b0000_0011

abbrev pub frame_reserved_mask : ℕ
frame_reserved_mask = 0b1111_1100

pub record UdpFragment : Type 0 where
  pub packet_id : ℕ
  pub fragment_index : ℕ
  pub fragment_count : ℕ
  pub total_len : ℕ
  pub payload : List ℕ

-- `UdpFrame` and `OwnedUdpFrame`, which differ in who owns the payload.
pub data UdpFrame : Type 0 where
  data_frame : ℕ → List ℕ → UdpFrame
  fragment_frame : ℕ → UdpFragment → UdpFrame
  close_frame : ℕ → UdpFrame

unfoldable pub validate_flow_id : ℕ → Result Error (Unit {0})
validate_flow_id flow_id = bail_if (flow_id == 0) zero_flow_id

unfoldable pub validate_packet_id : ℕ → Result Error (Unit {0})
validate_packet_id packet_id = bail_if (packet_id == 0) zero_packet_id

unfoldable pub validate_udp_payload : List ℕ → Result Error (Unit {0})
validate_udp_payload payload = bail_if (ltb udp_packet_max (length payload)) payload_too_large

unfoldable pub validate_fragment_metadata : ℕ → ℕ → ℕ → Result Error (Unit {0})
validate_fragment_metadata index count total_len = do
  bail_if (ltb count 2 || leb count index) invalid_fragment_index
  bail_if (total_len == 0) zero_total_length
  bail_if (ltb total_len count) total_below_count

pub encode_base_header : ℕ → ℕ → Result Error (List ℕ)
unfolding validate_flow_id
encode_base_header frame_type flow_id = do
  validate_flow_id flow_id
  ok (frame_type ∷ u32_bytes flow_id)

-- `encode_udp_data_header`
pub encode_udp_data_header : ℕ → Result Error (List ℕ)
unfolding encode_base_header
encode_udp_data_header flow_id = encode_base_header udp_frame_data flow_id

pub encode_udp_close : ℕ → Result Error (List ℕ)
unfolding encode_base_header
encode_udp_close flow_id = encode_base_header udp_frame_close flow_id

pub encode_udp_fragment_header : ℕ → ℕ → ℕ → ℕ → ℕ → Result Error (List ℕ)
unfolding validate_flow_id validate_packet_id validate_fragment_metadata
encode_udp_fragment_header flow_id packet_id index count total_len = do
  validate_flow_id flow_id
  validate_packet_id packet_id
  validate_fragment_metadata index count total_len
  ok (
      udp_frame_fragment
      ∷ (u32_bytes flow_id ++ (u32_bytes packet_id ++ (index ∷ count ∷ u16_bytes total_len))))

pub encode_udp_data : ℕ → List ℕ → Result Error (List ℕ)
unfolding validate_udp_payload encode_udp_data_header
encode_udp_data flow_id payload = do
  validate_udp_payload payload
  header ← encode_udp_data_header flow_id
  ok (header ++ payload)

-- `decode_fragment`, on the bytes behind the flow id.
decode_fragment : List ℕ → ℕ → Result Error UdpFrame
unfolding validate_packet_id validate_fragment_metadata
decode_fragment (p ∷ q ∷ r ∷ s ∷ index ∷ count ∷ t ∷ l ∷ payload) flow_id = do
  let packet_id = u32_of p q r s
  validate_packet_id packet_id
  let total_len = u16_of t l
  validate_fragment_metadata index count total_len
  bail_if (is_empty payload || ltb total_len (length payload + (count - 1)))
      invalid_fragment_payload
  ok (
      fragment_frame flow_id (record {
        packet_id = packet_id;
        fragment_index = index;
        fragment_count = count;
        total_len = total_len;
        payload = payload;
      }))
decode_fragment _ flow_id = err short_fragment_header

-- The `match` of `decode_udp_frame` on the frame type, on the bytes behind the flow id.
decode_body : ℕ → List ℕ → ℕ → Result Error UdpFrame
decode_body frame_type body flow_id =
    if frame_type == udp_frame_data
    then (validate_udp_payload body >> ok (data_frame flow_id body))
    else if frame_type == udp_frame_fragment
    then decode_fragment body flow_id
    else if frame_type == udp_frame_close
    then (bail_if (not (is_empty body)) close_payload >> ok (close_frame flow_id))
    else err invalid_frame_type

-- `decode_udp_frame`, and `decode_udp_frame_owned`, which cuts the payload from the same place.
pub decode_udp_frame : List ℕ → Result Error UdpFrame
decode_udp_frame (flags ∷ a ∷ b ∷ c ∷ d ∷ body) = do
  bail_if (not (bit_and flags frame_reserved_mask == 0)) reserved_flags
  let flow_id = u32_of a b c d
  validate_flow_id flow_id
  decode_body (bit_and flags frame_type_mask) body flow_id
decode_udp_frame _ = err short_header

pub record UdpFragments : Type 0 where
  pub flow_id : ℕ
  pub packet_id : ℕ
  pub payload : List ℕ
  pub fragment_payload_max : ℕ
  pub fragment_count : ℕ
  pub next : ℕ

-- `usize::div_ceil`
abbrev pub div_ceil : ℕ → ℕ → ℕ
div_ceil a b = (a + (b - 1)) / b

pub encode_udp_fragments : ℕ → ℕ → List ℕ → ℕ → Result Error UdpFragments
unfolding validate_flow_id validate_packet_id validate_udp_payload
encode_udp_fragments flow_id packet_id payload max_datagram_size = do
  validate_flow_id flow_id
  validate_packet_id packet_id
  validate_udp_payload payload
  bail_if
      (leb udp_header_len max_datagram_size
        && leb (length payload) (max_datagram_size - udp_header_len))
      must_be_unfragmented
  bail_if (leb max_datagram_size udp_fragment_header_len) no_fragment_capacity
  let capacity = max_datagram_size - udp_fragment_header_len
  let fragment_count = div_ceil (length payload) capacity
  bail_if (not (leb 2 fragment_count && leb fragment_count 255)) invalid_fragment_count
  ok (record {
    flow_id = flow_id;
    packet_id = packet_id;
    payload = payload;
    fragment_payload_max = capacity;
    fragment_count = fragment_count;
    next = 0;
  })

-- The payload of the fragment at an index.
pub chunk : UdpFragments → ℕ → List ℕ
chunk f index =
    let start = index * f.fragment_payload_max in
    let end = min (length f.payload) (start + f.fragment_payload_max) in
    take (end - start) (drop start f.payload)

-- `Iterator::next`: nothing at the end, or a frame and the iterator behind it. The `expect` on
-- the header would panic, which is `err` here.
pub next_fragment : UdpFragments → Result Error (Option (List ℕ × UdpFragments))
unfolding encode_udp_fragment_header
next_fragment f =
    if leb f.fragment_count f.next
    then ok none
    else (encode_udp_fragment_header f.flow_id f.packet_id f.next f.fragment_count
          (length f.payload)
        >>= λ header. ok (some (header ++ chunk f f.next, record f { next = f.next + 1 })))

-- `collect`, for at most as many rounds as are given.
pub collect : ℕ → UdpFragments → Result Error (List (List ℕ))
collect zero f = ok []
collect (suc rounds) f = next_fragment f >>= λ r. elim r [
  | none ↦ ok []
  | some (frame, f') ↦ collect rounds f' >>= λ frames. ok (frame ∷ frames)
]

-- `size_hint` gives the rounds that `collect` takes.
pub remaining : UdpFragments → ℕ
remaining f = f.fragment_count - f.next

pub encode_udp_data_fragments : ℕ → ℕ → List ℕ → ℕ → Result Error (List (List ℕ))
unfolding validate_flow_id validate_udp_payload encode_udp_data encode_udp_fragments remaining
encode_udp_data_fragments flow_id packet_id payload max_datagram_size = do
  validate_flow_id flow_id
  validate_udp_payload payload
  bail_if (ltb max_datagram_size udp_header_len) limit_below_header
  if leb (length payload) (max_datagram_size - udp_header_len)
      then (encode_udp_data flow_id payload >>= λ frame. ok (frame ∷ []))
      else (encode_udp_fragments flow_id packet_id payload max_datagram_size >>= λ fragments.
          collect (remaining fragments) fragments)
