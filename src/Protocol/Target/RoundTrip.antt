-- ===== src/Protocol/Target/RoundTrip.antt =====
-- src/protocol/request.rs: encoding and decoding a target, both ways.
use nowhere.Common.{
  ℕ, suc, ◌+◌, ◌≡◌, ◌≤◌, ◌<◌, refl, sym, ap, ◌∙◌, List, [], ◌∷◌, ◌++◌, ◌==◌, ==_iff, Bool-cases,
  length, take, drop, replicate, take-append, drop-append, take_add, drop_all, length-replicate,
  length-append, length-take, length-drop, append_assoc, append-nil, All-drop, Result-cases, inl,
  inr, ok, arith,
}
use nowhere.Common.Bytes.{AreBytes, IsByte, u16_bytes, u16_at, u16_at-u16_bytes, u16_bytes-u16_at}
use nowhere.Protocol.Target.{
  v4, v6, Target, ip, domain, ip_target, domain_target, encoded_len, wire_bytes, encode_target_into,
  encode_target, decode_ipv4, decode_ipv6, decode_domain, decode_target,
}

-- The types that Rust gives the parts of a target: arrays of 4 and 16 octets, 16-bit ports.
abbrev pub IsTyped : Target → Type 0
IsTyped (ip (v4 octets port)) = (length octets ≡ 4) × (port < 65_536)
IsTyped (ip (v6 octets port flowinfo scope)) = (length octets ≡ 16) × (port < 65_536)
IsTyped (domain host port) = port < 65_536

-- A target without what the wire does not carry: an IPv6 address's flow information and scope.
abbrev pub unscoped : Target → Target
unscoped (ip (v4 octets port)) = ip (v4 octets port)
unscoped (ip (v6 octets port flowinfo scope)) = ip (v6 octets port 0 0)
unscoped (domain host port) = domain host port

encoded_len-wire_bytes :
    (t : Target) (n : ℕ) → IsTyped t → encoded_len t ≡ ok n → n ≡ length (wire_bytes t)
unfolding encoded_len
encoded_len-wire_bytes (ip (v4 octets port)) n w e =
    ground (arith, length-append octets (u16_bytes port))
encoded_len-wire_bytes (ip (v6 octets port flowinfo scope)) n w e =
    ground (arith, length-append octets (u16_bytes port))
encoded_len-wire_bytes (domain host port) n w e =
    ground (arith, length-append host (u16_bytes port))

-- The encoder writes the wire form of a target, and its length.
pub encode_target-ok :
    (t : Target) (bytes : List ℕ)
    → IsTyped t
    → encode_target t ≡ ok bytes
    → (encoded_len t ≡ ok (length bytes)) × (bytes ≡ wire_bytes t)
unfolding encode_target encode_target_into
encode_target-ok t bytes w e = elim (Result-cases (encoded_len t)) [
  | inl (n, r) ↦ ground (
    arith,
    encoded_len-wire_bytes t n w r,
    drop_all {A = ℕ} n (replicate n 0),
    length-replicate {A = ℕ} n 0,
    append-nil (wire_bytes t),
  )
  | inr (x, r) ↦ cc (rw r at e)
]

pub encode_target-wire_bytes :
    (t : Target) (n : ℕ) → IsTyped t → encoded_len t ≡ ok n → encode_target t ≡ ok (wire_bytes t)
unfolding encode_target encode_target_into
encode_target-wire_bytes t n w r = ground (
  arith,
  drop_all {A = ℕ} n (replicate n 0),
  length-replicate {A = ℕ} n 0,
  append-nil (wire_bytes t),
)

-- An address or a host in front of a port and of any bytes, taken apart again.
abbrev pub Cut : ℕ → List ℕ → ℕ → List ℕ → Type 0
Cut n front port rest =
    let tail = (front ++ u16_bytes port) ++ rest in
    (take n tail ≡ front) × (u16_at (drop n tail) ≡ port) × (length tail ≡ n + (2 + length rest))

pub cut :
    (n : ℕ) (front : List ℕ) (port : ℕ) (rest : List ℕ)
    → length front ≡ n
    → port < 65_536
    → Cut n front port rest
cut n front port rest h p = rw (append_assoc front (u16_bytes port) rest) (
  take-append n front (u16_bytes port ++ rest) h,
  ap u16_at (drop-append n front (u16_bytes port ++ rest) h) ∙ u16_at-u16_bytes port rest p,
  omega (arith, length-append front (u16_bytes port ++ rest)),
)

decode-wire_bytes :
    (t : Target) (rest : List ℕ) (n : ℕ)
    → IsTyped t
    → encoded_len t ≡ ok n
    → decode_target (wire_bytes t ++ rest) ≡ ok (unscoped t, n)
unfolding decode_target decode_ipv4 decode_ipv6 decode_domain ip_target domain_target encoded_len
decode-wire_bytes (ip (v4 octets port)) rest n w e =
    let (a, p, l) = cut 4 octets port rest w.0 w.1 in ground arith
decode-wire_bytes (ip (v6 octets port flowinfo scope)) rest n w e =
    let (a, p, l) = cut 16 octets port rest w.0 w.1 in ground arith
decode-wire_bytes (domain host port) rest n w e =
    let (a, p, l) = cut (length host) host port rest refl w in ground arith

-- A target that was encoded in front of any bytes is decoded with the length of its encoding;
-- only an IPv6 address's flow information and scope come back as zero.
pub decode_target-encode_target :
    (t : Target) (bytes rest : List ℕ)
    → IsTyped t
    → encode_target t ≡ ok bytes
    → decode_target (bytes ++ rest) ≡ ok (unscoped t, length bytes)
decode_target-encode_target t bytes rest w e =
    let (fits, shape) = encode_target-ok t bytes w e in
    ap (λ b. decode_target (b ++ rest)) shape ∙ decode-wire_bytes t rest (length bytes) w fits

-- What a decoder has to show of the target and the length that it gives.
abbrev Decoded : List ℕ → Target → ℕ → Type 0
Decoded input t n =
    IsTyped t × (encoded_len t ≡ ok n) × (wire_bytes t ≡ take n input) × (n ≤ length input)

u16_at-lt : (xs : List ℕ) → AreBytes xs → u16_at xs < 65_536
u16_at-lt [] b = omega arith
u16_at-lt (x ∷ []) b = omega arith
u16_at-lt (x ∷ y ∷ xs) b = omega arith

-- An address of `k` octets and its port, cut off `rest`.
pub octets_port :
    (k : ℕ) (rest : List ℕ)
    → k + 2 ≤ length rest
    → AreBytes rest
    → (length (take k rest) ≡ k)
      × (u16_at (drop k rest) < 65_536)
      × (take k rest ++ u16_bytes (u16_at (drop k rest)) ≡ take (k + 2) rest)
octets_port k rest h b = (
  omega (arith, length-take k rest),
  u16_at-lt (drop k rest) (All-drop IsByte k rest b),
  ap (◌++◌ (take k rest)) (
        u16_bytes-u16_at (drop k rest) (omega (arith, length-drop k rest))
          (All-drop IsByte k rest b))
      ∙ sym (take_add k 2 rest),
)

decode_ipv4-Decoded :
    (rest : List ℕ) (t : Target) (n : ℕ)
    → AreBytes rest
    → decode_ipv4 (1 ∷ rest) ≡ ok (t, n)
    → Decoded (1 ∷ rest) t n
unfolding decode_ipv4 ip_target encoded_len
decode_ipv4-Decoded rest t n b e = ground (arith, λ (h : 6 ≤ length rest). octets_port 4 rest h b)

decode_ipv6-Decoded :
    (rest : List ℕ) (t : Target) (n : ℕ)
    → AreBytes rest
    → decode_ipv6 (4 ∷ rest) ≡ ok (t, n)
    → Decoded (4 ∷ rest) t n
unfolding decode_ipv6 ip_target encoded_len
decode_ipv6-Decoded rest t n b e = ground (arith, λ (h : 18 ≤ length rest). octets_port 16 rest h b)

take_two : (k x y : ℕ) (rest : List ℕ) → take (k + 4) (x ∷ y ∷ rest) ≡ x ∷ y ∷ take (k + 2) rest
take_two k x y rest = ap (λ n. take n (x ∷ y ∷ rest)) {y = suc (suc (k + 2))} (omega arith)

decode_domain-Decoded :
    (rest : List ℕ) (t : Target) (n : ℕ)
    → AreBytes rest
    → decode_domain (3 ∷ rest) ≡ ok (t, n)
    → Decoded (3 ∷ rest) t n
unfolding decode_domain domain_target encoded_len
decode_domain-Decoded [] t n b e = cc
decode_domain-Decoded (k ∷ rest) t n b e =
    ground (arith, λ (h : k + 2 ≤ length rest). octets_port k rest h b.1, take_two k 3 k rest)

decode_target-Decoded :
    (input : List ℕ) (t : Target) (n : ℕ)
    → AreBytes input
    → decode_target input ≡ ok (t, n)
    → Decoded input t n
unfolding decode_target
decode_target-Decoded [] t n b e = cc
decode_target-Decoded (a ∷ rest) t n b e = elim (Bool-cases (a == 1)) [
  | inl p ↦ let one = (==_iff a 1).0 p in rw one (decode_ipv4-Decoded rest t n b.1 (rw one at e))
  | inr p ↦ elim (Bool-cases (a == 4)) [
    | inl q ↦
        let four = (==_iff a 4).0 q in rw four (decode_ipv6-Decoded rest t n b.1 (rw four at e))
    | inr q ↦ elim (Bool-cases (a == 3)) [
      | inl r ↦
          let three = (==_iff a 3).0 r in
          rw three (decode_domain-Decoded rest t n b.1 (rw three at e))
      | inr r ↦ cc (rw (p, q, r) at e)
    ]
  ]
]

-- A decoded target encodes to exactly the bytes that the decoder says it used.
pub encode_target-decode_target :
    (input : List ℕ) (t : Target) (n : ℕ)
    → AreBytes input
    → decode_target input ≡ ok (t, n)
    → (n ≤ length input) × (encode_target t ≡ ok (take n input))
encode_target-decode_target input t n b e =
    let (w, fits, shape, short) = decode_target-Decoded input t n b e in
    (short, encode_target-wire_bytes t n w fits ∙ ap ok shape)
