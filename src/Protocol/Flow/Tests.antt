-- ===== src/Protocol/Flow/Tests.antt =====
-- The flow-header theorems at concrete headers.
use nowhere.Common.{ℕ, ◌≡◌, ◌≢◌, ◌↔◌, refl, List, [], ◌∷◌, ok, arith}
use nowhere.Protocol.Flow.{
  FlowHeader, open_half, udp, tls_tcp, quic, validate, validate_on, write_flow_header,
  encode_flow_header, decode_flow_header, decode_fields,
}
use nowhere.Protocol.Flow.RoundTrip.{decode-encode_flow_header}
use nowhere.Protocol.Flow.Validity.{Carries, validate_on_iff}

abbrev split_header : FlowHeader
split_header = record {
  role = open_half;
  flow_id = 258;
  kind = udp;
  uplink = quic;
  downlink = tls_tcp;
}

abbrev split_frame : List ℕ
split_frame = 0b0000_1101 ∷ 0 ∷ 0 ∷ 1 ∷ 2 ∷ []

split_frame_encoded : encode_flow_header split_header ≡ ok split_frame
unfolding encode_flow_header validate write_flow_header
split_frame_encoded = refl

split_frame_decoded : decode_flow_header split_frame ≡ ok split_header
unfolding decode_flow_header decode_fields validate
split_frame_decoded = refl

decode-encode_flow_header_example :
    (decode_flow_header split_frame ≡ ok split_header)
    ↔ (encode_flow_header split_header ≡ ok split_frame)
decode-encode_flow_header_example =
    decode-encode_flow_header split_frame split_header (omega arith) (omega arith)

validate_on_iff_example :
    (validate_on split_header quic ≡ ok tt)
    ↔ ((split_header.flow_id ≢ 0) × Carries open_half quic tls_tcp quic)
validate_on_iff_example = validate_on_iff split_header quic
