-- ===== src/Protocol/Auth/Frame.antt =====
-- src/protocol/auth.rs: the authentication frame, from a buffer and from a stream, and the
-- credentials.
use nowhere.Common.{
  ℕ, ◌≤◌, ◌≡◌, ◌↔◌, ap, ◌∙◌, List, [], ◌∷◌, ◌++◌, Bool, false, length, take, drop, take-append,
  drop-append, take-append-drop, length-append, length-take, ok, some, arith,
}
use nowhere.Protocol.Stream.{AsyncRead, read_exact-append}
use nowhere.Protocol.Auth.{
  Crypto, AuthTransport, transport_byte, derive_auth_key, from_shared_key, authentication_tag,
  encode_auth_frame, validate_auth_frame, read_auth_frame, credentials, decode_url_username,
}
use nowhere.Protocol.Auth.Username.{Escaped, escapes_well_formed_iff}

module _ (crypto : Crypto) (key : List ℕ) (transport : AuthTransport) (exporter : List ℕ) where
  open crypto use {hmac_sha256, ct_eq, ct_eq_iff, length-hmac_sha256}

  tag_length :
      (session : List ℕ) → length (authentication_tag crypto key transport exporter session) ≡ 16
  unfolding authentication_tag
  tag_length session =
      let message = (transport_byte transport ∷ exporter) ++ session in
      omega (arith, length-take 16 (hmac_sha256 key message), length-hmac_sha256 key message)

  validated-encode_auth_frame :
      (frame session : List ℕ)
      → validate_auth_frame crypto frame key transport exporter ≡ ok session
      → (length session ≡ 16) × (frame ≡ encode_auth_frame crypto key transport exporter session)
  unfolding validate_auth_frame encode_auth_frame
  validated-encode_auth_frame frame session e =
      let tag = authentication_tag crypto key transport exporter (take 16 frame) in
      ground (arith, ct_eq_iff (drop 16 frame) tag, take-append-drop 16 frame, length-take 16 frame)

  encoded-validate_auth_frame :
      (session : List ℕ)
      → length session ≡ 16
      → validate_auth_frame crypto
          (encode_auth_frame crypto key transport exporter session)
          key
          transport
          exporter
        ≡ ok session
  unfolding validate_auth_frame encode_auth_frame
  encoded-validate_auth_frame session h =
      let tag = authentication_tag crypto key transport exporter session in
      ground (
        arith,
        ct_eq_iff tag tag,
        take-append 16 session tag h,
        drop-append 16 session tag h,
        length-append session tag,
        tag_length session,
      )

  -- A frame is accepted as a session's exactly when it is the frame that a holder of the key
  -- makes for a session id of 16 bytes, on the same kind of transport and under the same
  -- exporter.
  pub validate-encode_auth_frame :
      (frame session : List ℕ)
      → (validate_auth_frame crypto frame key transport exporter ≡ ok session) ↔ (
          (length session ≡ 16) × (frame ≡ encode_auth_frame crypto key transport exporter session))
  validate-encode_auth_frame frame session = (
    validated-encode_auth_frame frame session,
    λ h.
        ap (λ f. validate_auth_frame crypto f key transport exporter) h.1
        ∙ encoded-validate_auth_frame session h.0,
  )

  frame_length :
      (session : List ℕ)
      → length session ≡ 16
      → length (encode_auth_frame crypto key transport exporter session) ≡ 32
  unfolding encode_auth_frame
  frame_length session h =
      let tag = authentication_tag crypto key transport exporter session in
      omega (arith, length-append session tag, tag_length session)

  module _ (io : AsyncRead) where
    open io use {Stream, pending}

    -- The frame of a session in front of any bytes is read and accepted, and those bytes stay on
    -- the stream.
    pub read_auth_frame-encode_auth_frame :
        (session rest : List ℕ) (s : Stream)
        → length session ≡ 16
        → pending s ≡ encode_auth_frame crypto key transport exporter session ++ rest
        → (t : Stream) × (read_auth_frame crypto io s key transport exporter ≡ ok (session, t))
          × (pending t ≡ rest)
    unfolding read_auth_frame
    read_auth_frame-encode_auth_frame session rest s h e =
        let frame = encode_auth_frame crypto key transport exporter session in
        let (t, r, p) = read_exact-append io 32 s frame rest e (frame_length session h) in
        (t, rw (r, encoded-validate_auth_frame session h), p)

module _ (crypto : Crypto) where
  open crypto use {percent_decode_utf8}

  -- For a username that percent-decodes to a shared key, the credentials of the URL are the key
  -- derived from it exactly when there is no password, every escape of the username is well
  -- formed, and the shared key has 1 to 255 bytes.
  pub credentials_iff :
      (username shared_key key : List ℕ) (has_password : Bool)
      → percent_decode_utf8 username ≡ some shared_key
      → (credentials crypto username has_password ≡ ok key) ↔ (
          (has_password ≡ false)
          × Escaped username
          × (1 ≤ length shared_key)
          × (length shared_key ≤ 255)
          × (key ≡ derive_auth_key crypto shared_key))
  unfolding credentials decode_url_username from_shared_key
  credentials_iff username [] key has_password e = ground (arith, escapes_well_formed_iff username)
  credentials_iff username (b ∷ bytes) key has_password e =
      ground (arith, escapes_well_formed_iff username)
