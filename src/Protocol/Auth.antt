-- ===== src/Protocol/Auth.antt =====
-- src/protocol/auth.rs: the frame that binds a connection to a shared key, and the key's way from
-- the URL. SHA-256, HMAC, the comparison in constant time and percent decoding are other
-- packages': they are the fields of `Crypto`.
pub mod Frame
pub mod Username
mod Tests
use nowhere.Common.{
  ℕ, ◌+◌, ◌≡◌, ◌↔◌, List, [], ◌∷◌, ◌++◌, Bool, true, false, not, ◌==◌, ltb, if◌then◌else◌, length,
  take, drop, is_empty, Option, none, some,
}
use nowhere.Common.{Result, ok, err, ◌>>=◌, ◌>>◌, ok_or, bail_if}
use nowhere.Protocol.Error.{
  Error, invalid_auth_frame, password_not_supported, malformed_escape, key_not_utf8, missing_key,
  key_too_long, read_failed,
}
use nowhere.Protocol.Stream.{AsyncRead}
use Username.{escapes_well_formed}

pub record Crypto : Type 0 where
  -- The tag of a message, which is what `update` was given, one piece after the other.
  pub hmac_sha256 : List ℕ → List ℕ → List ℕ
  pub sha256 : List ℕ → List ℕ
  pub ct_eq : List ℕ → List ℕ → Bool
  -- `percent_decode_str(username).decode_utf8()`
  pub percent_decode_utf8 : List ℕ → Option (List ℕ)
  pub length-hmac_sha256 : (key message : List ℕ) → length (hmac_sha256 key message) ≡ 32
  pub ct_eq_iff : (a b : List ℕ) → (ct_eq a b ≡ true) ↔ (a ≡ b)

abbrev pub session_id_len : ℕ
session_id_len = 16

abbrev pub auth_tag_len : ℕ
auth_tag_len = 16

abbrev pub auth_frame_len : ℕ
auth_frame_len = session_id_len + auth_tag_len

pub data AuthTransport : Type 0 where
  tls_tcp quic : AuthTransport

-- `transport as u8`
abbrev pub transport_byte : AuthTransport → ℕ
transport_byte tls_tcp = 0x01
transport_byte quic = 0x02

-- b"nowhere/now/1/auth-root"
abbrev pub auth_root_salt_label : List ℕ
auth_root_salt_label =
    b'n' ∷ b'o' ∷ b'w' ∷ b'h' ∷ b'e' ∷ b'r' ∷ b'e' ∷ b'/' ∷ b'n' ∷ b'o' ∷ b'w' ∷ b'/' ∷ b'1' ∷ b'/'
    ∷ b'a' ∷ b'u' ∷ b't' ∷ b'h' ∷ b'-' ∷ b'r' ∷ b'o' ∷ b'o' ∷ b't' ∷ []

-- b"authentication"
abbrev pub auth_key_info : List ℕ
auth_key_info =
    b'a' ∷ b'u' ∷ b't' ∷ b'h' ∷ b'e' ∷ b'n' ∷ b't' ∷ b'i' ∷ b'c' ∷ b'a' ∷ b't' ∷ b'i' ∷ b'o' ∷ b'n'
    ∷ []

module _ (crypto : Crypto) where
  open crypto use {hmac_sha256, sha256, ct_eq, percent_decode_utf8}

  pub derive_auth_key : List ℕ → List ℕ
  derive_auth_key shared_key =
      let auth_root = hmac_sha256 (sha256 auth_root_salt_label) shared_key in
      hmac_sha256 auth_root (auth_key_info ++ (1 ∷ []))

  -- `Credentials::from_shared_key`; the credentials are the key.
  pub from_shared_key : List ℕ → Result Error (List ℕ)
  from_shared_key shared_key = do
    bail_if (is_empty shared_key) missing_key
    bail_if (ltb 255 (length shared_key)) key_too_long
    ok (derive_auth_key shared_key)

  -- `decode_url_username` of util.rs, on the bytes of the username.
  pub decode_url_username : List ℕ → Result Error (List ℕ)
  decode_url_username username = do
    bail_if (not (escapes_well_formed username)) malformed_escape
    ok_or (percent_decode_utf8 username) key_not_utf8

  -- `Credentials::new`, on the username of a URL and whether it has a password.
  pub credentials : List ℕ → Bool → Result Error (List ℕ)
  credentials username has_password = do
    bail_if has_password password_not_supported
    shared_key ← decode_url_username username
    from_shared_key shared_key

  pub authentication_tag : List ℕ → AuthTransport → List ℕ → List ℕ → List ℕ
  authentication_tag auth_key transport exporter session_id =
      take auth_tag_len (hmac_sha256 auth_key ((transport_byte transport ∷ exporter) ++ session_id))

  pub encode_auth_frame : List ℕ → AuthTransport → List ℕ → List ℕ → List ℕ
  encode_auth_frame auth_key transport exporter session_id =
      session_id ++ authentication_tag auth_key transport exporter session_id

  pub validate_auth_frame : List ℕ → List ℕ → AuthTransport → List ℕ → Result Error (List ℕ)
  validate_auth_frame frame auth_key transport exporter = do
    bail_if (not (length frame == auth_frame_len)) invalid_auth_frame
    let session_id = take session_id_len frame
    let expected = authentication_tag auth_key transport exporter session_id
    bail_if (not (ct_eq (drop session_id_len frame) expected)) invalid_auth_frame
    ok session_id

  module _ (io : AsyncRead) where
    open io use {Stream, read_exact}

    pub read_auth_frame : Stream → List ℕ → AuthTransport → List ℕ → Result Error (List ℕ × Stream)
    read_auth_frame s auth_key transport exporter = do
      (frame, s') ← ok_or (read_exact auth_frame_len s) read_failed
      session_id ← validate_auth_frame frame auth_key transport exporter
      ok (session_id, s')
