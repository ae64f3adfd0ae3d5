-- ===== src/Protocol/Auth/Tests.antt =====
-- The authentication theorems over a small stand-in for the cryptography: a tag that adds up
-- the key and the message, and a username that decodes to itself.
use nowhere.Common.{
  ℕ, ◌+◌, ◌≤◌, ◌≡◌, ◌↔◌, refl, List, [], ◌∷◌, ◌++◌, Bool, true, false, ◌==◌, ◌&&◌, length,
  replicate, some, ok, arith,
}
use nowhere.Protocol.Stream.{in_memory}
use nowhere.Protocol.Auth.{
  Crypto, quic, derive_auth_key, encode_auth_frame, validate_auth_frame, read_auth_frame,
  credentials, authentication_tag,
}
use nowhere.Protocol.Auth.Username.{
  Escaped, escapes_well_formed, escapes_well_formed_iff, is_ascii_hexdigit,
}
use nowhere.Protocol.Auth.Frame.{
  validate-encode_auth_frame, read_auth_frame-encode_auth_frame, credentials_iff,
}

abbrev sum : List ℕ → ℕ
sum [] = 0
sum (x ∷ xs) = x + sum xs

abbrev same : List ℕ → List ℕ → Bool
same [] [] = true
same (a ∷ xs) (b ∷ bs) = a == b && same xs bs
same _ _ = false

same_iff : (xs bs : List ℕ) → (same xs bs ≡ true) ↔ (xs ≡ bs)
same_iff [] [] = ground arith
same_iff [] (b ∷ bs) = ground arith
same_iff (a ∷ xs) [] = ground arith
same_iff (a ∷ xs) (b ∷ bs) = ground (arith, same_iff xs bs)

abbrev toy : Crypto
toy = record {
  hmac_sha256 = λ key message. replicate 32 (sum key + sum message);
  sha256 = λ message. replicate 32 (sum message);
  ct_eq = same;
  percent_decode_utf8 = λ username. some username;
  length-hmac_sha256 = λ key message. refl;
  ct_eq_iff = same_iff;
}

abbrev session : List ℕ
session = replicate 16 1

abbrev frame : List ℕ
frame = session ++ replicate 16 (2 + (9 + (16 + 7)))

frame_made : frame ≡ encode_auth_frame toy (7 ∷ []) quic (9 ∷ []) session
unfolding encode_auth_frame authentication_tag
frame_made = refl

validate-encode_auth_frame_example :
    (validate_auth_frame toy frame (7 ∷ []) quic (9 ∷ []) ≡ ok session)
    ↔ ((length session ≡ 16) × (frame ≡ encode_auth_frame toy (7 ∷ []) quic (9 ∷ []) session))
validate-encode_auth_frame_example =
    validate-encode_auth_frame toy (7 ∷ []) quic (9 ∷ []) frame session

read_auth_frame-encode_auth_frame_example :
    (t : List ℕ) × (read_auth_frame toy in_memory (frame ++ (5 ∷ [])) (7 ∷ []) quic (9 ∷ [])
      ≡ ok (session, t))
    × (t ≡ 5 ∷ [])
unfolding encode_auth_frame authentication_tag
read_auth_frame-encode_auth_frame_example =
    read_auth_frame-encode_auth_frame toy (7 ∷ []) quic (9 ∷ []) in_memory session (5 ∷ [])
      (frame ++ (5 ∷ [])) refl refl

credentials_iff_example :
    (credentials toy (b'k' ∷ []) false ≡ ok (derive_auth_key toy (b'k' ∷ []))) ↔ (
      (false ≡ false)
      × Escaped (b'k' ∷ [])
      × (1 ≤ 1)
      × (1 ≤ 255)
      × (derive_auth_key toy (b'k' ∷ []) ≡ derive_auth_key toy (b'k' ∷ [])))
credentials_iff_example =
    credentials_iff toy (b'k' ∷ []) (b'k' ∷ []) (derive_auth_key toy (b'k' ∷ [])) false refl

escaped_key : escapes_well_formed (b'%' ∷ b'4' ∷ b'a' ∷ b'x' ∷ []) ≡ true
unfolding escapes_well_formed is_ascii_hexdigit
escaped_key = refl

escapes_well_formed_iff_example :
    (escapes_well_formed (b'%' ∷ b'4' ∷ b'a' ∷ []) ≡ true) ↔ Escaped (b'%' ∷ b'4' ∷ b'a' ∷ [])
escapes_well_formed_iff_example = escapes_well_formed_iff (b'%' ∷ b'4' ∷ b'a' ∷ [])
