-- ===== src/Protocol/Datagram/Frames.antt =====
-- src/protocol/datagram.rs: the frames' codec both ways.
use Prim.Native.Nat.{bit_and}
use nowhere.Common.{
  ℕ, ◌+◌, ◌-◌, ◌/◌, ◌%◌, ◌^◌, ◌≡◌, ◌≤◌, ◌<◌, ◌↔◌, refl, ap, ◌∙◌, List, [], ◌∷◌, ◌++◌, Bool, true,
  false, ◌==◌, ltb, ◌||◌, length, is_empty, Result, ok, ◌>>=◌, arith, if◌then◌else◌, ◌&&◌,
}
use nowhere.Common.Bytes.{
  AreBytes, u16_bytes, u16_of, u32_bytes, u32_of, holds_under, holds_under_lem,
}
use nowhere.Protocol.Error.{Error}
use nowhere.Protocol.Datagram.{
  UdpFragment, UdpFrame, data_frame, fragment_frame, close_frame, validate_flow_id,
  validate_packet_id, validate_fragment_metadata, encode_udp_close, encode_udp_fragment_header,
  encode_udp_data, decode_fragment, decode_body, decode_udp_frame, frame_reserved_mask,
  frame_type_mask,
}

-- The frame on the wire: the header of its kind, then its payload.
unfoldable pub encode_frame : UdpFrame → Result Error (List ℕ)
encode_frame (data_frame flow_id payload) = encode_udp_data flow_id payload
encode_frame (fragment_frame flow_id f) =
    encode_udp_fragment_header flow_id f.packet_id f.fragment_index f.fragment_count f.total_len
    >>= λ header. ok (header ++ f.payload)
encode_frame (close_frame flow_id) = encode_udp_close flow_id

-- A fragment holds a byte at least, and leaves one to each of the others.
abbrev pub PayloadFits : UdpFrame → Type 0
PayloadFits (data_frame flow_id payload) = Unit {0}
PayloadFits (fragment_frame flow_id f) =
    (1 ≤ length f.payload) × (length f.payload + f.fragment_count ≤ f.total_len + 1)
PayloadFits (close_frame flow_id) = Unit {0}

-- The widths of a frame's numbers: u32, u8 and u16.
abbrev pub IsTyped : UdpFrame → Type 0
IsTyped (data_frame flow_id payload) = flow_id < 2 ^ 32
IsTyped (fragment_frame flow_id f) =
    (flow_id < 2 ^ 32)
    × (f.packet_id < 2 ^ 32)
    × (f.fragment_index < 256)
    × (f.fragment_count < 256)
    × (f.total_len < 65_536)
IsTyped (close_frame flow_id) = flow_id < 2 ^ 32

abbrev flags_known : ℕ → Bool
flags_known flags =
    if bit_and flags frame_reserved_mask == 0
    then ltb flags 4 && bit_and flags frame_type_mask == flags
    else true

flags_table : holds_under flags_known 256 ≡ true
unfolding holds_under
flags_table = refl

clear_flags :
    (flags : ℕ)
    → flags < 256
    → (bit_and flags frame_reserved_mask == 0) ≡ true
    → bit_and flags frame_type_mask ≡ flags
clear_flags flags h clear = ground (arith, holds_under_lem flags_known 256 flags flags_table h)

abbrev flags_read : ℕ → Bool
flags_read flags = bit_and flags frame_reserved_mask == 0 && bit_and flags frame_type_mask == flags

small_table : holds_under flags_read 4 ≡ true
unfolding holds_under
small_table = refl

small_flags :
    (flags : ℕ)
    → flags < 4
    → ((bit_and flags frame_reserved_mask == 0) ≡ true) × (bit_and flags frame_type_mask ≡ flags)
small_flags flags h = ground (arith, holds_under_lem flags_read 4 flags small_table h)

decode_fragment-encode :
    (body : List ℕ) (flow_id : ℕ) (frame : UdpFrame)
    → AreBytes body
    → validate_flow_id flow_id ≡ ok tt
    → decode_fragment body flow_id ≡ ok frame
    → (encode_frame frame ≡ ok (1 ∷ (u32_bytes flow_id ++ body))) × PayloadFits frame
unfolding decode_fragment encode_frame encode_udp_fragment_header
decode_fragment-encode [] flow_id frame b v e = cc
decode_fragment-encode (p ∷ []) flow_id frame b v e = cc
decode_fragment-encode (p ∷ q ∷ []) flow_id frame b v e = cc
decode_fragment-encode (p ∷ q ∷ r ∷ []) flow_id frame b v e = cc
decode_fragment-encode (p ∷ q ∷ r ∷ s ∷ []) flow_id frame b v e = cc
decode_fragment-encode (p ∷ q ∷ r ∷ s ∷ i ∷ []) flow_id frame b v e = cc
decode_fragment-encode (p ∷ q ∷ r ∷ s ∷ i ∷ c ∷ []) flow_id frame b v e = cc
decode_fragment-encode (p ∷ q ∷ r ∷ s ∷ i ∷ c ∷ t ∷ []) flow_id frame b v e = cc
decode_fragment-encode (p ∷ q ∷ r ∷ s ∷ i ∷ c ∷ t ∷ l ∷ payload) flow_id frame b v e = ground arith

decode_body-encode :
    (type : ℕ) (body : List ℕ) (flow_id : ℕ) (frame : UdpFrame)
    → AreBytes body
    → validate_flow_id flow_id ≡ ok tt
    → decode_body type body flow_id ≡ ok frame
    → (encode_frame frame ≡ ok (type ∷ (u32_bytes flow_id ++ body))) × PayloadFits frame
unfolding decode_body encode_frame encode_udp_data encode_udp_close
decode_body-encode type [] flow_id frame b v e =
    ground (arith, decode_fragment-encode [] flow_id frame b v)
decode_body-encode type (x ∷ body) flow_id frame b v e =
    ground (arith, decode_fragment-encode (x ∷ body) flow_id frame b v)

decoded-encode_frame :
    (input : List ℕ) (frame : UdpFrame)
    → AreBytes input
    → decode_udp_frame input ≡ ok frame
    → (encode_frame frame ≡ ok input) × PayloadFits frame
unfolding decode_udp_frame
decoded-encode_frame [] frame b e = cc
decoded-encode_frame (f ∷ []) frame b e = cc
decoded-encode_frame (f ∷ x ∷ []) frame b e = cc
decoded-encode_frame (f ∷ x ∷ y ∷ []) frame b e = cc
decoded-encode_frame (f ∷ x ∷ y ∷ z ∷ []) frame b e = cc
decoded-encode_frame (f ∷ x ∷ y ∷ z ∷ w ∷ body) frame b e =
    ground (arith, clear_flags f b.0, decode_body-encode f body (u32_of x y z w) frame b.1.1.1.1.1)

u32_of-u32_bytes :
    (n : ℕ)
    → n < 2 ^ 32
    → u32_of (n / 16_777_216 % 256) (n / 65_536 % 256) (n / 256 % 256) (n % 256) ≡ n
u32_of-u32_bytes n h = omega arith

-- The decoder on a header whose flags are the frame's kind alone.
decode_header :
    (type flow_id : ℕ) (body : List ℕ)
    → type < 4
    → flow_id < 2 ^ 32
    → validate_flow_id flow_id ≡ ok tt
    → decode_udp_frame (type ∷ (u32_bytes flow_id ++ body)) ≡ decode_body type body flow_id
unfolding decode_udp_frame
decode_header type flow_id body h w v =
    rw (u32_of-u32_bytes flow_id w) (ground (arith, small_flags type h))

data_decoded :
    (flow_id : ℕ) (payload input : List ℕ)
    → flow_id < 2 ^ 32
    → encode_udp_data flow_id payload ≡ ok input
    → decode_udp_frame input ≡ ok (data_frame flow_id payload)
unfolding encode_udp_data decode_body
data_decoded flow_id payload input w e = ground (arith, decode_header 0 flow_id payload)

close_decoded :
    (flow_id : ℕ) (input : List ℕ)
    → flow_id < 2 ^ 32
    → encode_udp_close flow_id ≡ ok input
    → decode_udp_frame input ≡ ok (close_frame flow_id)
unfolding encode_udp_close decode_body
close_decoded flow_id input w e = ground (arith, decode_header 2 flow_id [])

-- A fragment's header in front of its payload.
abbrev fragment_body : UdpFragment → List ℕ
fragment_body f =
    u32_bytes f.packet_id
    ++ (f.fragment_index ∷ f.fragment_count ∷ (u16_bytes f.total_len ++ f.payload))

fragment_shape :
    (flow_id : ℕ) (f : UdpFragment) (input : List ℕ)
    → encode_frame (fragment_frame flow_id f) ≡ ok input
    → (validate_flow_id flow_id ≡ ok tt)
      × (validate_packet_id f.packet_id ≡ ok tt)
      × (validate_fragment_metadata f.fragment_index f.fragment_count f.total_len ≡ ok tt)
      × (input ≡ 1 ∷ (u32_bytes flow_id ++ fragment_body f))
unfolding encode_frame encode_udp_fragment_header
fragment_shape flow_id f input e = ground arith

u16_of-u16_bytes : (n : ℕ) → n < 65_536 → u16_of (n / 256 % 256) (n % 256) ≡ n
u16_of-u16_bytes n h = omega arith

pub metadata_bounds :
    (index count total : ℕ)
    → validate_fragment_metadata index count total ≡ ok tt
    → (2 ≤ count) × (index < count) × (count ≤ total)
unfolding validate_fragment_metadata
metadata_bounds index count total e = ground arith

not_empty : (xs : List ℕ) → 1 ≤ length xs → is_empty xs ≡ false
not_empty [] h = absurd (omega arith)
not_empty (x ∷ xs) h = refl

payload_test :
    (f : UdpFragment)
    → (1 ≤ length f.payload) × (length f.payload + f.fragment_count ≤ f.total_len + 1)
    → 2 ≤ f.fragment_count
    → (is_empty f.payload || ltb f.total_len (length f.payload + (f.fragment_count - 1))) ≡ false
payload_test f fits h = rw (not_empty f.payload fits.0) (ground arith)

body_of_one :
    (flow_id : ℕ) (f : UdpFragment)
    → decode_body 1 (fragment_body f) flow_id ≡ decode_fragment (fragment_body f) flow_id
unfolding decode_body
body_of_one flow_id f = refl

decode_fragment_body :
    (flow_id : ℕ) (f : UdpFragment)
    → IsTyped (fragment_frame flow_id f)
    → PayloadFits (fragment_frame flow_id f)
    → validate_packet_id f.packet_id ≡ ok tt
    → validate_fragment_metadata f.fragment_index f.fragment_count f.total_len ≡ ok tt
    → decode_fragment (fragment_body f) flow_id ≡ ok (fragment_frame flow_id f)
unfolding decode_fragment
decode_fragment_body flow_id f w fits vp vm =
    rw
      (
        u32_of-u32_bytes f.packet_id w.1,
        u16_of-u16_bytes f.total_len w.4,
        vp,
        vm,
        payload_test f fits (metadata_bounds _ _ _ vm).0,
      )
      refl

fragment_decoded :
    (flow_id : ℕ) (f : UdpFragment) (input : List ℕ)
    → IsTyped (fragment_frame flow_id f)
    → PayloadFits (fragment_frame flow_id f)
    → encode_frame (fragment_frame flow_id f) ≡ ok input
    → decode_udp_frame input ≡ ok (fragment_frame flow_id f)
fragment_decoded flow_id f input w fits e =
    let (v, vp, vm, shape) = fragment_shape flow_id f input e in
    ap decode_udp_frame shape
    ∙ decode_header 1 flow_id (fragment_body f) (omega arith) w.0 v
    ∙ body_of_one flow_id f
    ∙ decode_fragment_body flow_id f w fits vp vm

pub encoded-decode_udp_frame :
    (frame : UdpFrame) (input : List ℕ)
    → IsTyped frame
    → PayloadFits frame
    → encode_frame frame ≡ ok input
    → decode_udp_frame input ≡ ok frame
unfolding encode_frame
encoded-decode_udp_frame (data_frame flow_id payload) input w fits e =
    data_decoded flow_id payload input w e
encoded-decode_udp_frame (close_frame flow_id) input w fits e = close_decoded flow_id input w e
encoded-decode_udp_frame (fragment_frame flow_id f) input w fits e =
    fragment_decoded flow_id f input w fits e

-- On bytes, and for a frame whose numbers have their widths, a DATAGRAM decodes to the frame
-- exactly when it is what the frame encodes to and, for a fragment, the payload is not empty and
-- leaves a byte to each other fragment of the packet.
pub decode_udp_frame_iff :
    (input : List ℕ) (frame : UdpFrame)
    → AreBytes input
    → IsTyped frame
    → (decode_udp_frame input ≡ ok frame) ↔ ((encode_frame frame ≡ ok input) × PayloadFits frame)
decode_udp_frame_iff input frame b w =
    (decoded-encode_frame input frame b, λ h. encoded-decode_udp_frame frame input w h.1 h.0)
