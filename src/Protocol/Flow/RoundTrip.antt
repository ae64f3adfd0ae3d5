-- ===== src/Protocol/Flow/RoundTrip.antt =====
-- src/protocol/flow.rs: the flow header's codec both ways, on bytes and on streams.
use Prim.Native.Nat.{bit_and}
use nowhere.Common.{
  ℕ, ◌/◌, ◌%◌, ◌^◌, ◌<◌, ◌≡◌, refl, ap, ◌∙◌, ◌↔◌, List, [], ◌∷◌, ◌++◌, Bool, true, ◌==◌, ==_iff,
  Bool-cases, inl, inr, if◌then◌else◌, length, Result, ok, err, arith,
}
use nowhere.Common.Bytes.{AreBytes, u32_of, holds_under, holds_under_lem}
use nowhere.Protocol.Error.{Error}
use nowhere.Protocol.Stream.{AsyncRead, read_exact-append}
use nowhere.Protocol.Flow.{
  FlowRole, FlowKind, Carrier, FlowHeader, flow_flags, role_of, kind_of, carrier_of, validate,
  write_flow_header, encode_flow_header, decode_fields, decode_flow_header, read_flow_header,
  reserved_mask, role_mask, kind_bit, uplink_bit, downlink_bit,
}

-- What the fields are read back from the flags that hold them.
flow_flags_fields :
    (r : FlowRole) (k : FlowKind) (u d : Carrier)
    → let f = flow_flags r k u d in
      ((bit_and f reserved_mask == 0) ≡ true)
      × (role_of (bit_and f role_mask) ≡ ok r)
      × (kind_of (bit_and f kind_bit) ≡ k)
      × (carrier_of (bit_and f uplink_bit) ≡ u)
      × (carrier_of (bit_and f downlink_bit) ≡ d)
flow_flags_fields r k u d = ground arith

-- The flags made again from the fields that were read from them.
abbrev same_flags : ℕ → Result Error FlowRole → Bool
same_flags f (ok r) =
    flow_flags r (kind_of (bit_and f kind_bit)) (carrier_of (bit_and f uplink_bit))
      (carrier_of (bit_and f downlink_bit))
    == f
same_flags f (err e) = true

abbrev flags_kept : ℕ → Bool
flags_kept f =
    if bit_and f reserved_mask == 0 then same_flags f (role_of (bit_and f role_mask)) else true

flags_table : holds_under flags_kept 256 ≡ true
unfolding holds_under
flags_table = refl

fields_flow_flags :
    (f : ℕ) (r : FlowRole)
    → f < 256
    → (bit_and f reserved_mask == 0) ≡ true
    → role_of (bit_and f role_mask) ≡ ok r
    → flow_flags r
        (kind_of (bit_and f kind_bit))
        (carrier_of (bit_and f uplink_bit))
        (carrier_of (bit_and f downlink_bit))
      ≡ f
fields_flow_flags f r h clear e =
    (==_iff _ f).0 (rw (clear, e) at (holds_under_lem flags_kept 256 f flags_table h))

u32_of-u32_bytes :
    (n : ℕ)
    → n < 2 ^ 32
    → u32_of (n / 16_777_216 % 256) (n / 65_536 % 256) (n / 256 % 256) (n % 256) ≡ n
u32_of-u32_bytes n h = omega arith

-- The fields of a header that was decoded, put together again.
decode_fields-ok :
    (flags id : ℕ) (h : FlowHeader)
    → flags < 256
    → decode_fields flags id ≡ ok h
    → (validate h ≡ ok tt)
      × (flow_flags h.role h.kind h.uplink h.downlink ≡ flags)
      × (h.flow_id ≡ id)
unfolding decode_fields
decode_fields-ok flags id h b e = elim (Bool-cases (bit_and flags reserved_mask == 0)) [
  | inr set ↦ cc (rw set at e)
  | inl clear ↦ ground (arith, fields_flow_flags flags h.role b clear)
]

decode_fields-flow_flags :
    (h : FlowHeader)
    → validate h ≡ ok tt
    → decode_fields (flow_flags h.role h.kind h.uplink h.downlink) h.flow_id ≡ ok h
unfolding decode_fields
decode_fields-flow_flags h v =
    let (c, r, k, u, d) = flow_flags_fields h.role h.kind h.uplink h.downlink in
    rw (c, r, k, u, d, v)

decoded-encode_flow_header :
    (bytes : List ℕ) (h : FlowHeader)
    → AreBytes bytes
    → decode_flow_header bytes ≡ ok h
    → encode_flow_header h ≡ ok bytes
unfolding decode_flow_header encode_flow_header write_flow_header
decoded-encode_flow_header [] h b e = cc
decoded-encode_flow_header (f ∷ []) h b e = cc
decoded-encode_flow_header (f ∷ x ∷ []) h b e = cc
decoded-encode_flow_header (f ∷ x ∷ y ∷ []) h b e = cc
decoded-encode_flow_header (f ∷ x ∷ y ∷ z ∷ []) h b e = cc
decoded-encode_flow_header (f ∷ x ∷ y ∷ z ∷ w ∷ []) h b e =
    let (v, flags, id) = decode_fields-ok f (u32_of x y z w) h b.0 e in rw v (ground arith)
decoded-encode_flow_header (f ∷ x ∷ y ∷ z ∷ w ∷ u ∷ rest) h b e = cc

encode_flow_header-ok :
    (bytes : List ℕ) (h : FlowHeader)
    → encode_flow_header h ≡ ok bytes
    → (validate h ≡ ok tt) × (bytes ≡ write_flow_header h)
unfolding encode_flow_header
encode_flow_header-ok bytes h e = ground arith

decode-write_flow_header :
    (h : FlowHeader)
    → h.flow_id < 2 ^ 32
    → validate h ≡ ok tt
    → decode_flow_header (write_flow_header h) ≡ ok h
unfolding decode_flow_header write_flow_header
decode-write_flow_header h fits v =
    rw (u32_of-u32_bytes h.flow_id fits) (decode_fields-flow_flags h v)

encoded-decode_flow_header :
    (bytes : List ℕ) (h : FlowHeader)
    → h.flow_id < 2 ^ 32
    → encode_flow_header h ≡ ok bytes
    → decode_flow_header bytes ≡ ok h
encoded-decode_flow_header bytes h fits e =
    let (v, shape) = encode_flow_header-ok bytes h e in
    ap decode_flow_header shape ∙ decode-write_flow_header h fits v

encoded_length :
    (bytes : List ℕ) (h : FlowHeader) → encode_flow_header h ≡ ok bytes → length bytes ≡ 5
unfolding encode_flow_header write_flow_header
encoded_length bytes h e = ground arith

-- On bytes and a 32-bit flow id, a frame decodes to a header exactly when it is what the header
-- encodes to: nothing else is accepted, and no field is lost.
pub decode-encode_flow_header :
    (bytes : List ℕ) (h : FlowHeader)
    → AreBytes bytes
    → h.flow_id < 2 ^ 32
    → (decode_flow_header bytes ≡ ok h) ↔ (encode_flow_header h ≡ ok bytes)
decode-encode_flow_header bytes h b fits =
    (decoded-encode_flow_header bytes h b, encoded-decode_flow_header bytes h fits)

module _ (io : AsyncRead) where
  open io use {Stream, pending}

  -- A header that was encoded in front of any bytes is read back, and those bytes stay on the
  -- stream.
  pub read_flow_header-encode_flow_header :
      (h : FlowHeader) (bytes rest : List ℕ) (s : Stream)
      → h.flow_id < 2 ^ 32
      → encode_flow_header h ≡ ok bytes
      → pending s ≡ bytes ++ rest
      → (t : Stream) × (read_flow_header io s ≡ ok (h, t)) × (pending t ≡ rest)
  unfolding read_flow_header
  read_flow_header-encode_flow_header h bytes rest s fits e p =
      let (t, r, q) = read_exact-append io 5 s bytes rest p (encoded_length bytes h e) in
      (t, rw (r, encoded-decode_flow_header bytes h fits e), q)
