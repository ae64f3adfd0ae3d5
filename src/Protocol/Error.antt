-- ===== src/Protocol/Error.antt =====
-- The errors of `src/protocol`: one constructor for each message that the codecs give, with
-- the numbers left out that a message quotes.
pub data Error : Type 0 where
  payload_too_large truncated_length truncated_payload : Error
  invalid_result_length invalid_result ready_is_not_an_error : Error
  zero_flow_id duplex_mismatch split_carriers_equal carrier_mismatch : Error
  invalid_header_length reserved_flags invalid_role : Error
  password_not_supported malformed_escape key_not_utf8 missing_key key_too_long : Error
  invalid_auth_frame : Error
  zero_port invalid_domain_length domain_not_ascii invalid_label_length : Error
  label_hyphen invalid_label_bytes : Error
  output_too_short missing_address_type missing_domain_length truncated_target : Error
  truncated_domain truncated_domain_port unknown_address_type : Error
  short_header zero_packet_id invalid_frame_type close_payload : Error
  short_fragment_header invalid_fragment_index zero_total_length : Error
  total_below_count invalid_fragment_payload : Error
  limit_below_header must_be_unfragmented no_fragment_capacity invalid_fragment_count : Error
  read_failed : Error
