-- ===== src/Protocol/Flow.antt =====
-- src/protocol/flow.rs: the five-byte header in front of every logical flow.
pub mod RoundTrip
pub mod Validity
mod Tests
use Prim.Native.Nat.{bit_and, bit_or}
use nowhere.Common.{
  ℕ, ◌*◌, ◌^◌, ◌<◌, ◌≡◌, List, [], ◌∷◌, Bool, true, false, not, ◌==◌, if◌then◌else◌,
}
use nowhere.Common.{Result, ok, err, ◌>>=◌, ◌>>◌, ok_or, bail_if}
use nowhere.Common.Bytes.{u32_bytes, u32_of}
use nowhere.Protocol.Error.{
  Error, zero_flow_id, duplex_mismatch, split_carriers_equal, carrier_mismatch,
  invalid_header_length, reserved_flags, invalid_role, read_failed,
}
use nowhere.Protocol.Stream.{AsyncRead}

abbrev pub role_mask : ℕ
role_mask = 0b0000_0011

abbrev pub kind_bit : ℕ
kind_bit = 0b0000_0100

abbrev pub uplink_bit : ℕ
uplink_bit = 0b0000_1000

abbrev pub downlink_bit : ℕ
downlink_bit = 0b0001_0000

abbrev pub reserved_mask : ℕ
reserved_mask = 0b1110_0000

pub data FlowRole : Type 0 where
  duplex open_half attach : FlowRole

pub data FlowKind : Type 0 where
  tcp udp : FlowKind

pub data Carrier : Type 0 where
  tls_tcp quic : Carrier

pub record FlowHeader : Type 0 where
  pub role : FlowRole
  pub flow_id : ℕ
  pub kind : FlowKind
  pub uplink : Carrier
  pub downlink : Carrier

-- `role as u8`, `kind as u8`, `carrier as u8`
abbrev pub role_byte : FlowRole → ℕ
role_byte duplex = 0
role_byte open_half = 1
role_byte attach = 2

abbrev pub kind_byte : FlowKind → ℕ
kind_byte tcp = 0
kind_byte udp = 1

abbrev pub carrier_byte : Carrier → ℕ
carrier_byte tls_tcp = 0
carrier_byte quic = 1

-- The derived `PartialEq` of `Carrier`.
abbrev pub same_carrier : Carrier → Carrier → Bool
same_carrier tls_tcp tls_tcp = true
same_carrier quic quic = true
same_carrier _ _ = false

-- The `match` of `FlowHeader::validate` on the role.
abbrev pub validate_carriers : FlowRole → Carrier → Carrier → Result Error (Unit {0})
validate_carriers duplex up down = bail_if (not (same_carrier up down)) duplex_mismatch
validate_carriers open_half up down = bail_if (same_carrier up down) split_carriers_equal
validate_carriers attach up down = bail_if (same_carrier up down) split_carriers_equal

-- `FlowHeader::validate`
pub validate : FlowHeader → Result Error (Unit {0})
validate h = do bail_if (h.flow_id == 0) zero_flow_id; validate_carriers h.role h.uplink h.downlink

-- The carrier that a lane of this role has to arrive on.
abbrev pub expected_carrier : FlowRole → Carrier → Carrier → Carrier
expected_carrier duplex up down = up
expected_carrier open_half up down = up
expected_carrier attach up down = down

-- `FlowHeader::validate_on`
pub validate_on : FlowHeader → Carrier → Result Error (Unit {0})
validate_on h current = do
  validate h
  bail_if (not (same_carrier current (expected_carrier h.role h.uplink h.downlink)))
      carrier_mismatch

-- `FlowHeader::carries_target`
pub carries_target : FlowRole → Bool
carries_target duplex = true
carries_target open_half = true
carries_target attach = false

-- A shift of a `u8` by `k` is a multiplication by `2 ^ k`; the fields are too small to overflow.
abbrev pub flow_flags : FlowRole → FlowKind → Carrier → Carrier → ℕ
flow_flags role kind uplink downlink =
    bit_or (bit_or (bit_or (role_byte role) (kind_byte kind * 4)) (carrier_byte uplink * 8))
      (carrier_byte downlink * 16)

pub write_flow_header : FlowHeader → List ℕ
write_flow_header h = flow_flags h.role h.kind h.uplink h.downlink ∷ u32_bytes h.flow_id

pub encode_flow_header : FlowHeader → Result Error (List ℕ)
encode_flow_header h = do validate h; ok (write_flow_header h)

abbrev pub role_of : ℕ → Result Error FlowRole
role_of value =
    if value == 0
    then ok duplex
    else if value == 1
    then ok open_half
    else if value == 2
    then ok attach
    else err invalid_role

abbrev pub kind_of : ℕ → FlowKind
kind_of value = if value == 0 then tcp else udp

abbrev pub carrier_of : ℕ → Carrier
carrier_of value = if value == 0 then tls_tcp else quic

-- `decode_flow_header` once the length is known to be five.
decode_fields : ℕ → ℕ → Result Error FlowHeader
decode_fields flags flow_id = do
  bail_if (not (bit_and flags reserved_mask == 0)) reserved_flags
  role ← role_of (bit_and flags role_mask)
  let header : FlowHeader = record {
    role = role;
    flow_id = flow_id;
    kind = kind_of (bit_and flags kind_bit);
    uplink = carrier_of (bit_and flags uplink_bit);
    downlink = carrier_of (bit_and flags downlink_bit);
  }
  validate header
  ok header

pub decode_flow_header : List ℕ → Result Error FlowHeader
decode_flow_header (flags ∷ a ∷ b ∷ c ∷ d ∷ []) = decode_fields flags (u32_of a b c d)
decode_flow_header _ = err invalid_header_length

module _ (io : AsyncRead) where
  open io use {Stream, read_exact}

  pub read_flow_header : Stream → Result Error (FlowHeader × Stream)
  read_flow_header s = do
    (bytes, s') ← ok_or (read_exact 5 s) read_failed
    header ← decode_flow_header bytes
    ok (header, s')
