-- ===== src/Protocol/Setup/RoundTrip.antt =====
-- src/protocol/result.rs: the codecs both ways, on bytes and on streams.
use nowhere.Common.{ℕ, ◌≡◌, refl, List, [], ◌∷◌, ◌++◌, ok, err, arith, ◌↔◌}
use nowhere.Protocol.Error.{ready_is_not_an_error}
use nowhere.Protocol.Stream.{AsyncRead, read_exact-append}
use nowhere.Protocol.Setup.{
  SetupResult, FlowErrorCode, FlowResult, setup_of_byte, code_of_byte, setup_of_code, setup_of_flow,
  flow_of_setup, encode_setup_result, decode_setup_result, encode_flow_result, read_flow_result,
}

-- Decoding undoes encoding, and a frame that decodes is the encoding of what it decodes to: the
-- two are inverse, and every other frame is refused.
pub decode-encode_setup_result :
    (bytes : List ℕ) (result : SetupResult)
    → (decode_setup_result bytes ≡ ok result) ↔ (bytes ≡ encode_setup_result result)
unfolding decode_setup_result encode_setup_result
decode-encode_setup_result bytes result = (there bytes result, back bytes result)
  where
    there :
        (bytes : List ℕ) (result : SetupResult)
        → decode_setup_result bytes ≡ ok result
        → bytes ≡ encode_setup_result result
    there [] result e = cc
    there (b ∷ []) result e = ground arith
    there (b ∷ c ∷ rest) result e = cc

    back :
        (bytes : List ℕ) (result : SetupResult)
        → bytes ≡ encode_setup_result result
        → decode_setup_result bytes ≡ ok result
    back bytes SetupResult.ready e = rw e
    back bytes _ e = rw e

flow_of_setup-setup_of_flow :
    (result : FlowResult) → flow_of_setup (setup_of_flow result) ≡ ok result
unfolding flow_of_setup setup_of_flow
flow_of_setup-setup_of_flow FlowResult.ready = refl
flow_of_setup-setup_of_flow (FlowResult.reject code) = ground arith

-- A byte is an error code exactly when it is a setup result other than READY, and the code then
-- stands for that result; the byte of READY is refused as no error.
pub code_of_byte_lem :
    (value : ℕ) (code : FlowErrorCode)
    → ((code_of_byte value ≡ ok code) ↔ (setup_of_byte value ≡ ok (setup_of_code code)))
      × (code_of_byte 0 ≡ err ready_is_not_an_error)
unfolding code_of_byte setup_of_code
code_of_byte_lem value code = ground arith

module _ (io : AsyncRead) where
  open io use {Stream, pending}

  -- An outcome that `write_flow_result` put in front of any bytes is read back by
  -- `read_flow_result`, and those bytes stay on the stream.
  pub read_flow_result-encode_flow_result :
      (result : FlowResult) (rest : List ℕ) (s : Stream)
      → pending s ≡ encode_flow_result result ++ rest
      → (t : Stream) × (read_flow_result io s ≡ ok (result, t)) × (pending t ≡ rest)
  unfolding read_flow_result encode_flow_result
  read_flow_result-encode_flow_result result rest s e =
      let (t, r, p) = read_exact-append io 1 s (encode_flow_result result) rest e refl in
      (
        t,
        rw (
          r,
          (decode-encode_setup_result (encode_flow_result result) (setup_of_flow result)).1 refl,
          flow_of_setup-setup_of_flow result,
        ),
        p,
      )
