-- ===== src/Socks/Logins.antt =====
-- src/common/socks/protocol.rs: a run of `negotiate` and `authenticate` for each configuration of
-- the two sides.
use nowhere.Common.{
  ℕ, ◌%◌, ◌≡◌, ◌≤◌, refl, sym, ap, ◌∙◌, subst, List, [], ◌∷◌, ◌++◌, true, false, not, ◌==◌, leb,
  ◌||◌, Option, none, some, if◌then◌else◌, length, length-append, take-append, drop-append,
  append-nil, Bool-cases, ◌⊎◌, ◌≢◌, inl, inr, arith,
}
use nowhere.Socks.Negotiate.{
  Ending, agreed, authentication_failed, method_rejected, method_not_offered, credentials_rejected,
  empty_password, invalid_auth_header, Talk, finished, writes, reads, Login, byte_of, login_request,
  negotiate, constant_time_equal, judge, authenticate_password, authenticate,
}
use nowhere.Socks.ConstantTime.{constant_time_equal_iff}
use nowhere.Socks.Dialogue.{Net, talk_step, Run, over, client_goes, server_goes}

-- A username and a password of 1 to 255 bytes, as the configuration has them.
abbrev pub Fits : Login → Type 0
Fits (username, password) =
    (1 ≤ length username)
    × (length username ≤ 255)
    × (1 ≤ length password)
    × (length password ≤ 255)

abbrev pub start : Option Login → Option Login → Net
start client server = record {
  client = negotiate client;
  server = authenticate server;
  to_server = [];
  to_client = [];
}

abbrev pub ends : Ending → Ending → Net
ends client server = record {
  client = finished client;
  server = finished server;
  to_server = [];
  to_client = [];
}

pub plain-Run : Run 5 (start none none) (ends agreed agreed)
unfolding negotiate authenticate
plain-Run = client_goes 4 _ _ _ refl (
    server_goes 3 _ _ _ refl
      (server_goes 2 _ _ _ refl (server_goes 1 _ _ _ refl (client_goes 0 _ _ _ refl (over _)))))

-- Only the server asks for a login.
pub asked-Run :
    (login : Login) → Run 5 (start none (some login)) (ends method_rejected method_not_offered)
unfolding negotiate authenticate
asked-Run login = client_goes 4 _ _ _ refl (
    server_goes 3 _ _ _ refl
      (server_goes 2 _ _ _ refl (server_goes 1 _ _ _ refl (client_goes 0 _ _ _ refl (over _)))))

-- Only the client has a login.
pub offered-Run :
    (login : Login) → Run 5 (start (some login) none) (ends method_rejected method_not_offered)
unfolding negotiate authenticate
offered-Run login = client_goes 4 _ _ _ refl (
    server_goes 3 _ _ _ refl
      (server_goes 2 _ _ _ refl (server_goes 1 _ _ _ refl (client_goes 0 _ _ _ refl (over _)))))

reads_step :
    (n : ℕ) (next : List ℕ → Talk) (front rest : List ℕ)
    → length front ≡ n
    → talk_step (reads n next) (front ++ rest) ≡ some (next front, rest, [])
reads_step n next front rest e =
    let both = length-append front rest in
    let enough : leb n (length (front ++ rest)) ≡ true = ground (arith, e, both) in
    rw (talk_step, enough, take-append n front rest e, drop-append n front rest e) refl

abbrev after_len : Login → List ℕ → List ℕ → Talk
after_len login username len =
    if byte_of len 0 == 0
    then writes (1 ∷ 1 ∷ []) (finished empty_password)
    else reads (byte_of len 0) (λ password. judge login username password)

abbrev after_username : Login → List ℕ → Talk
after_username login username = reads 1 (after_len login username)

abbrev after_header : Login → List ℕ → Talk
after_header login header =
    if not (byte_of header 0 == 1) || byte_of header 1 == 0
    then writes (1 ∷ 1 ∷ []) (finished invalid_auth_header)
    else reads (byte_of header 1) (after_username login)

header_step :
    (login : Login) (m : ℕ) (tail : List ℕ)
    → 1 ≤ m
    → talk_step (authenticate_password login) (1 ∷ m ∷ tail)
      ≡ some (reads m (after_username login), tail, [])
unfolding authenticate_password
header_step login m tail h =
    let some_name : (m == 0) ≡ false = ground (arith, h) in
    let named : after_header login (1 ∷ m ∷ []) ≡ reads m (after_username login) =
      rw some_name refl in
    reads_step 2 (after_header login) (1 ∷ m ∷ []) tail refl ∙ ap (λ t. some (t, tail, [])) named

len_step :
    (login : Login) (username password : List ℕ) (n : ℕ)
    → 1 ≤ n
    → talk_step (reads 1 (after_len login username)) (n ∷ password)
      ≡ some (reads n (λ p. judge login username p), password, [])
len_step login username password n h =
    let some_password : (n == 0) ≡ false = ground (arith, h) in
    reads_step 1 (after_len login username) (n ∷ []) password refl ∙ rw some_password refl

password_step :
    (login : Login) (username password : List ℕ)
    → talk_step (reads (length password) (λ p. judge login username p)) password
      ≡ some (judge login username password, [], [])
password_step login username password =
    subst
      (λ bytes.
        talk_step (reads (length password) (λ p. judge login username p)) bytes
        ≡ some (judge login username password, [], []))
      (append-nil password)
      (reads_step (length password) (λ p. judge login username p) password [] refl)

abbrev plain_request : Login → List ℕ
plain_request (username, password) =
    1 ∷ length username ∷ (username ++ (length password ∷ password))

login_request-plain : (login : Login) → Fits login → login_request login ≡ plain_request login
login_request-plain (username, password) fits =
    let name : length username % 256 ≡ length username = omega (arith, fits.1) in
    let word : length password % 256 ≡ length password = omega (arith, fits.3) in
    rw (name, word) refl

abbrev after_response : List ℕ → Talk
after_response response =
    if not (byte_of response 0 == 1) || not (byte_of response 1 == 0)
    then finished authentication_failed
    else finished agreed

-- The server's judgement, and how the two sides end.
abbrev pub Judged : Login → Login → Type 0
Judged given asked =
    ((given ≡ asked) × (judge asked given.0 given.1 ≡ writes (1 ∷ 0 ∷ []) (finished agreed)))
    ⊎ ((given ≢ asked)
        × (judge asked given.0 given.1 ≡ writes (1 ∷ 1 ∷ []) (finished credentials_rejected)))

pub judge-Judged : (given asked : Login) → Judged given asked
judge-Judged given asked = elim (Bool-cases (constant_time_equal given.0 asked.0)) [
  | inr h ↦ inr (
    λ e. let yes = (constant_time_equal_iff given.0 asked.0).1 (ap (λ l. l.0) e) in cc,
    rw h refl,
  )
  | inl h ↦ elim (Bool-cases (constant_time_equal given.1 asked.1)) [
    | inr g ↦ inr (
      λ e. let yes = (constant_time_equal_iff given.1 asked.1).1 (ap (λ l. l.1) e) in cc,
      rw (h, g) refl,
    )
    | inl g ↦
        let names = (constant_time_equal_iff given.0 asked.0).0 h in
        let words = (constant_time_equal_iff given.1 asked.1).0 g in
        inl (ap (λ a. (a, given.1)) names ∙ ap (λ b. (asked.0, b)) words, rw (h, g) refl)
  ]
]

-- The server reads the login, and the client its answer.
password-Run :
    (given asked : Login) (server client : Ending) (answer : ℕ)
    → Fits given
    → judge asked given.0 given.1 ≡ writes (1 ∷ answer ∷ []) (finished server)
    → after_response (1 ∷ answer ∷ []) ≡ finished client
    → Run 6
        (record {
          client = reads 2 after_response;
          server = authenticate_password asked;
          to_server = plain_request given;
          to_client = [];
        })
        (ends client server)
password-Run given asked server client answer fits judged answered =
    let rest = length given.1 ∷ given.1 in
    server_goes 5 _ _ _ (header_step asked (length given.0) (given.0 ++ rest) fits.0) (
      server_goes 4 _ _ _ (reads_step (length given.0) (after_username asked) given.0 rest refl) (
        server_goes 3 _ _ _ (len_step asked given.0 given.1 (length given.1) fits.2) (
          server_goes 2 _ _ _ (password_step asked given.0 given.1) (
            server_goes 1 _ _ (finished server, [], 1 ∷ answer ∷ [])
              (ap (λ t. talk_step t []) judged)
              (client_goes 0 _ _ (finished client, [], []) (ap (λ t. some (t, [], [])) answered)
                (over _))))))

-- Both sides have a login.
pub login-Run :
    (given asked : Login) (server client : Ending) (answer : ℕ)
    → Fits given
    → judge asked given.0 given.1 ≡ writes (1 ∷ answer ∷ []) (finished server)
    → after_response (1 ∷ answer ∷ []) ≡ finished client
    → Run 12 (start (some given) (some asked)) (ends client server)
unfolding negotiate authenticate
login-Run given asked server client answer fits judged answered =
    let request_sent =
      subst
        (λ bytes.
          Run 6
            (record {
              client = reads 2 after_response;
              server = authenticate_password asked;
              to_server = bytes;
              to_client = [];
            })
            (ends client server))
        (sym (login_request-plain given fits))
        (password-Run given asked server client answer fits judged answered) in
    client_goes 11 _ _ _ refl (
      server_goes 10 _ _ _ refl (
        server_goes 9 _ _ _ refl (
          server_goes 8 _ _ _ refl
            (client_goes 7 _ _ _ refl (client_goes 6 _ _ _ refl request_sent)))))
