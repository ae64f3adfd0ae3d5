-- ===== src/Protocol/Setup/Tests.antt =====
-- The setup-result theorems at concrete frames.
use nowhere.Common.{◌≡◌, ◌↔◌, refl, [], ◌∷◌, ◌++◌, ok, err}
use nowhere.Protocol.Error.{ready_is_not_an_error}
use nowhere.Protocol.Setup.{
  SetupResult, FlowErrorCode, FlowResult, setup_of_byte, setup_of_code, code_of_byte,
  decode_setup_result, encode_setup_result, encode_flow_result,
}
use nowhere.Protocol.Setup.RoundTrip.{decode-encode_setup_result, code_of_byte_lem}

decode-encode_setup_result_example :
    (decode_setup_result (3 ∷ []) ≡ ok SetupResult.pair_timeout)
    ↔ (3 ∷ [] ≡ encode_setup_result SetupResult.pair_timeout)
decode-encode_setup_result_example = decode-encode_setup_result (3 ∷ []) SetupResult.pair_timeout

code_of_byte_example :
    ((code_of_byte 4 ≡ ok FlowErrorCode.flow_limit)
      ↔ (setup_of_byte 4 ≡ ok (setup_of_code FlowErrorCode.flow_limit)))
    × (code_of_byte 0 ≡ err ready_is_not_an_error)
code_of_byte_example = code_of_byte_lem 4 FlowErrorCode.flow_limit

timeout_frame :
    3 ∷ 9 ∷ [] ≡ encode_flow_result (FlowResult.reject FlowErrorCode.pair_timeout) ++ (9 ∷ [])
unfolding encode_flow_result
timeout_frame = refl
