-- ===== src/Socks/Negotiate.antt =====
-- src/common/socks/protocol.rs: the negotiation of methods and passwords, `negotiate` on the side
-- of the client and `authenticate` on the side of the server. An async function over a stream is
-- the talk that it has with the other side.
use Prim.Native.Nat.{bit_or, bit_xor}
use nowhere.Common.{
  ℕ, zero, suc, ◌%◌, max, List, [], ◌∷◌, ◌++◌, Bool, false, not, ◌==◌, ◌&&◌, ◌||◌, Option, none,
  some, if◌then◌else◌, length, drop,
}
use nowhere.Socks.{socks_version}

abbrev pub auth_version : ℕ
auth_version = 1

abbrev pub auth_none : ℕ
auth_none = 0

abbrev pub auth_password : ℕ
auth_password = 2

abbrev pub auth_unacceptable : ℕ
auth_unacceptable = 255

-- How a negotiation ends: the messages of `negotiate`, `authenticate` and `authenticate_password`.
pub data Ending : Type 0 where
  agreed : Ending
  invalid_version method_rejected unadvertised_method authentication_failed : Ending
  invalid_negotiation method_not_offered invalid_auth_header empty_password : Ending
  credentials_rejected : Ending

-- `write_all`, and `read_exact`, which goes on with as many bytes as it asks for.
pub data Talk : Type 0 where
  finished : Ending → Talk
  writes : List ℕ → Talk → Talk
  reads : ℕ → (List ℕ → Talk) → Talk

-- A username and a password.
abbrev pub Login : Type 0
Login = List ℕ × List ℕ

-- A byte of a buffer that `read_exact` filled.
abbrev pub byte_of : List ℕ → ℕ → ℕ
byte_of [] i = 0
byte_of (b ∷ bs) zero = b
byte_of (b ∷ bs) (suc i) = byte_of bs i

abbrev pub method_of : Option Login → ℕ
method_of none = auth_none
method_of (some login) = auth_password

abbrev pub contains_byte : ℕ → List ℕ → Bool
contains_byte b [] = false
contains_byte b (x ∷ xs) = x == b || contains_byte b xs

-- `username.len() as u8` keeps the low byte.
abbrev pub login_request : Login → List ℕ
login_request (username, password) =
    auth_version ∷ (length username % 256) ∷ (username ++ ((length password % 256) ∷ password))

abbrev pub send_login : Option Login → Talk
send_login none = finished agreed
send_login (some login) = writes (login_request login) (
    reads 2 (λ response.
      if not (byte_of response 0 == auth_version) || not (byte_of response 1 == 0)
      then finished authentication_failed
      else finished agreed))

unfoldable pub negotiate : Option Login → Talk
negotiate credentials =
    let method = method_of credentials in
    writes (socks_version ∷ 1 ∷ method ∷ []) (
      reads 2 (λ response.
        if not (byte_of response 0 == socks_version)
        then finished invalid_version
        else if byte_of response 1 == auth_unacceptable
        then finished method_rejected
        else if not (byte_of response 1 == method)
        then finished unadvertised_method
        else send_login credentials))

-- The loop of `constant_time_equal`, for as many rounds as the longer slice has bytes.
abbrev pub compare_bytes : ℕ → List ℕ → List ℕ → ℕ → ℕ
compare_bytes zero left right diff = diff
compare_bytes (suc n) left right diff =
    compare_bytes n (drop 1 left) (drop 1 right)
      (bit_or diff (bit_xor (byte_of left 0) (byte_of right 0)))

unfoldable pub constant_time_equal : List ℕ → List ℕ → Bool
constant_time_equal left right =
    compare_bytes (max (length left) (length right)) left right
      (bit_xor (length left) (length right))
    == 0

abbrev pub judge : Login → List ℕ → List ℕ → Talk
judge (username, password) given_username given_password =
    if constant_time_equal given_username username && constant_time_equal given_password password
    then writes (auth_version ∷ 0 ∷ []) (finished agreed)
    else writes (auth_version ∷ 1 ∷ []) (finished credentials_rejected)

unfoldable pub authenticate_password : Login → Talk
authenticate_password expected = reads 2 (λ header.
    if not (byte_of header 0 == auth_version) || byte_of header 1 == 0
    then writes (auth_version ∷ 1 ∷ []) (finished invalid_auth_header)
    else reads (byte_of header 1) (λ username. reads 1 (λ password_len.
      if byte_of password_len 0 == 0
      then writes (auth_version ∷ 1 ∷ []) (finished empty_password)
      else reads (byte_of password_len 0) (λ password. judge expected username password))))

abbrev pub expect_login : Option Login → Talk
expect_login none = finished agreed
expect_login (some login) = authenticate_password login

unfoldable pub authenticate : Option Login → Talk
authenticate credentials =
    let selected = method_of credentials in
    reads 2 (λ header.
      if not (byte_of header 0 == socks_version) || byte_of header 1 == 0
      then finished invalid_negotiation
      else reads (byte_of header 1) (λ methods.
        if not (contains_byte selected methods)
        then writes (socks_version ∷ auth_unacceptable ∷ []) (finished method_not_offered)
        else writes (socks_version ∷ selected ∷ []) (expect_login credentials)))
