-- ===== src/Protocol/Setup.antt =====
-- src/protocol/result.rs: the one-byte outcome of a flow's setup, and the types built on it.
pub mod RoundTrip
mod Tests
use nowhere.Common.{ℕ, ◌≡◌, List, [], ◌∷◌, Bool, true, false, ◌==◌, if◌then◌else◌, length}
use nowhere.Common.{Result, ok, err, ◌>>=◌, ok_or}
use nowhere.Protocol.Error.{Error, invalid_result_length, invalid_result, ready_is_not_an_error}
use nowhere.Protocol.Error.{read_failed}
use nowhere.Protocol.Stream.{AsyncRead}

pub data SetupResult : Type 0 where
  ready invalid_request metadata_conflict pair_timeout flow_limit dial_failed : SetupResult
  session_replaced internal_error : SetupResult

pub data FlowErrorCode : Type 0 where
  invalid_request metadata_conflict pair_timeout flow_limit dial_failed : FlowErrorCode
  session_replaced internal_error : FlowErrorCode

pub data FlowResult : Type 0 where
  ready : FlowResult
  reject : FlowErrorCode → FlowResult

-- `SetupResult::is_ready`
is_ready : SetupResult → Bool
is_ready SetupResult.ready = true
is_ready _ = false

-- `result as u8`
pub discriminant : SetupResult → ℕ
discriminant SetupResult.ready = 0
discriminant SetupResult.invalid_request = 1
discriminant SetupResult.metadata_conflict = 2
discriminant SetupResult.pair_timeout = 3
discriminant SetupResult.flow_limit = 4
discriminant SetupResult.dial_failed = 5
discriminant SetupResult.session_replaced = 6
discriminant SetupResult.internal_error = 7

-- `impl TryFrom<u8> for SetupResult`
pub setup_of_byte : ℕ → Result Error SetupResult
setup_of_byte value =
    if value == 0
    then ok SetupResult.ready
    else if value == 1
    then ok SetupResult.invalid_request
    else if value == 2
    then ok SetupResult.metadata_conflict
    else if value == 3
    then ok SetupResult.pair_timeout
    else if value == 4
    then ok SetupResult.flow_limit
    else if value == 5
    then ok SetupResult.dial_failed
    else if value == 6
    then ok SetupResult.session_replaced
    else if value == 7
    then ok SetupResult.internal_error
    else err invalid_result

-- `impl TryFrom<SetupResult> for FlowErrorCode`
pub code_of_setup : SetupResult → Result Error FlowErrorCode
code_of_setup SetupResult.ready = err ready_is_not_an_error
code_of_setup SetupResult.invalid_request = ok FlowErrorCode.invalid_request
code_of_setup SetupResult.metadata_conflict = ok FlowErrorCode.metadata_conflict
code_of_setup SetupResult.pair_timeout = ok FlowErrorCode.pair_timeout
code_of_setup SetupResult.flow_limit = ok FlowErrorCode.flow_limit
code_of_setup SetupResult.dial_failed = ok FlowErrorCode.dial_failed
code_of_setup SetupResult.session_replaced = ok FlowErrorCode.session_replaced
code_of_setup SetupResult.internal_error = ok FlowErrorCode.internal_error

-- `impl TryFrom<u8> for FlowErrorCode`
pub code_of_byte : ℕ → Result Error FlowErrorCode
unfolding setup_of_byte code_of_setup
code_of_byte value = do setup ← setup_of_byte value; code_of_setup setup

-- `impl From<FlowErrorCode> for SetupResult`
pub setup_of_code : FlowErrorCode → SetupResult
setup_of_code FlowErrorCode.invalid_request = SetupResult.invalid_request
setup_of_code FlowErrorCode.metadata_conflict = SetupResult.metadata_conflict
setup_of_code FlowErrorCode.pair_timeout = SetupResult.pair_timeout
setup_of_code FlowErrorCode.flow_limit = SetupResult.flow_limit
setup_of_code FlowErrorCode.dial_failed = SetupResult.dial_failed
setup_of_code FlowErrorCode.session_replaced = SetupResult.session_replaced
setup_of_code FlowErrorCode.internal_error = SetupResult.internal_error

-- `impl From<FlowResult> for SetupResult`
pub setup_of_flow : FlowResult → SetupResult
unfolding setup_of_code
setup_of_flow FlowResult.ready = SetupResult.ready
setup_of_flow (FlowResult.reject code) = setup_of_code code

-- `impl From<SetupResult> for FlowResult`; its `expect` panics, which is `err` here.
pub flow_of_setup : SetupResult → Result Error FlowResult
unfolding code_of_setup is_ready
flow_of_setup value =
    if is_ready value
    then ok FlowResult.ready
    else (code_of_setup value >>= λ code. ok (FlowResult.reject code))

pub encode_setup_result : SetupResult → List ℕ
unfolding discriminant
encode_setup_result result = discriminant result ∷ []

pub decode_setup_result : List ℕ → Result Error SetupResult
unfolding setup_of_byte
decode_setup_result (byte ∷ []) = setup_of_byte byte
decode_setup_result _ = err invalid_result_length

-- Also the bytes that `write_flow_result` hands to the writer.
pub encode_flow_result : FlowResult → List ℕ
unfolding encode_setup_result setup_of_flow
encode_flow_result result = encode_setup_result (setup_of_flow result)

module _ (io : AsyncRead) where
  open io use {Stream, read_exact}

  pub read_setup_result : Stream → Result Error (SetupResult × Stream)
  unfolding decode_setup_result
  read_setup_result s = do
    (byte, s') ← ok_or (read_exact 1 s) read_failed
    result ← decode_setup_result byte
    ok (result, s')

  pub read_flow_result : Stream → Result Error (FlowResult × Stream)
  unfolding read_setup_result flow_of_setup
  read_flow_result s = do
    (setup, s') ← read_setup_result s
    result ← flow_of_setup setup
    ok (result, s')
