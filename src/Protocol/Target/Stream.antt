-- ===== src/Protocol/Target/Stream.antt =====
-- src/protocol/request.rs: `read_request` on a stream against `decode_target` on the bytes to come.
use nowhere.Common.{
  ℕ, ◌+◌, ◌≡◌, ◌≤◌, ◌<◌, refl, sym, ap, ◌∙◌, List, [], ◌∷◌, ◌++◌, true, false, ◌==◌, ==_iff,
  Bool-cases, ltb, ◌||◌, length, take, drop, take-append-drop, length-append, take-append_le,
  drop-append_le, length-take, length-drop, drop_front, inl, inr, Result, ok, err, ◌>>=◌, arith,
}
use nowhere.Common.Bytes.{u16_at-append}
use nowhere.Protocol.Error.{Error, read_failed, invalid_domain_length, unknown_address_type}
use nowhere.Protocol.Domain.{validate_domain_bytes}
use nowhere.Protocol.Stream.{AsyncRead, ReadExact-cases, read_exact-append}
use nowhere.Protocol.Target.{
  Target, ip_target, domain_target, decode_ipv4, decode_ipv6, decode_domain, decode_target,
  read_tail, read_domain, read_request,
}

abbrev pub IsErr {ℓ} : {A : Type ℓ} → Result Error A → Type 0
IsErr (ok a) = ⊥
IsErr (err e) = Unit {0}

-- The target in front of `tail` is decoded from `tail` alone and takes all of it, and fails if
-- less is there.
record Framed (front : List ℕ) (n : ℕ) : Type 0 where
  short : (bytes : List ℕ) → length bytes < n → IsErr (decode_target (front ++ bytes))
  long :
      (tail rest : List ℕ)
      → length tail ≡ n
      → decode_target (front ++ (tail ++ rest)) ≡ decode_target (front ++ tail)
  whole :
      (tail : List ℕ) (t : Target) (m : ℕ)
      → length tail ≡ n
      → decode_target (front ++ tail) ≡ ok (t, m)
      → m ≡ length front + n

ipv4-Framed : Framed (1 ∷ []) 6
unfolding decode_target decode_ipv4 ip_target
ipv4-Framed = record {
  short = λ bytes h. ground arith;
  long = λ tail rest h. ground (
    arith,
    length-append tail rest,
    take-append_le 4 tail rest,
    drop-append_le 4 tail rest,
    length-drop 4 tail,
    u16_at-append (drop 4 tail) rest,
  );
  whole = λ tail t m h e. ground arith;
}

ipv6-Framed : Framed (4 ∷ []) 18
unfolding decode_target decode_ipv6 ip_target
ipv6-Framed = record {
  short = λ bytes h. ground arith;
  long = λ tail rest h. ground (
    arith,
    length-append tail rest,
    take-append_le 16 tail rest,
    drop-append_le 16 tail rest,
    length-drop 16 tail,
    u16_at-append (drop 16 tail) rest,
  );
  whole = λ tail t m h e. ground arith;
}

domain-Framed : (k : ℕ) → Framed (3 ∷ k ∷ []) (k + 2)
unfolding decode_target decode_domain domain_target
domain-Framed k = record {
  short = λ bytes h. ground arith;
  long = λ tail rest h. ground (
    arith,
    length-append tail rest,
    take-append_le k tail rest,
    drop-append_le k tail rest,
    length-drop k tail,
    u16_at-append (drop k tail) rest,
  );
  whole = λ tail t m h e. ground arith;
}

domain_too_long :
    (host : List ℕ)
    → (length host == 0 || ltb 253 (length host)) ≡ true
    → IsErr (validate_domain_bytes host)
domain_too_long [] h = unfold validate_domain_bytes in tt
domain_too_long (b ∷ bytes) h = unfold validate_domain_bytes in ground arith

bad_domain_len :
    (k : ℕ) (rest : List ℕ) → (k == 0 || ltb 253 k) ≡ true → IsErr (decode_target (3 ∷ k ∷ rest))
unfolding decode_target decode_domain
bad_domain_len k rest h = ground (arith, length-take k rest, domain_too_long (take k rest))

domain_missing : IsErr (decode_target (3 ∷ []))
unfolding decode_target decode_domain
domain_missing = tt

nothing_decoded : IsErr (decode_target [])
unfolding decode_target
nothing_decoded = tt

unknown_type :
    (a : ℕ) (rest : List ℕ)
    → (a == 1) ≡ false
    → (a == 4) ≡ false
    → (a == 3) ≡ false
    → decode_target (a ∷ rest) ≡ err unknown_address_type
unfolding decode_target
unknown_type a rest x y z = rw (x, y, z)

module _ (io : AsyncRead) where
  open io use {Stream, pending}

  -- The reader fails where the decoder fails, and otherwise gives the decoder's target and takes
  -- the bytes that the decoder used.
  abbrev pub SameTarget :
      Result Error (Target × Stream) → Result Error (Target × ℕ) → List ℕ → Type 0
  SameTarget (ok (t, s)) (ok (u, n)) bytes = (t ≡ u) × (pending s ≡ drop n bytes)
  SameTarget (ok (t, s)) (err e) bytes = ⊥
  SameTarget (err e) (ok (u, n)) bytes = ⊥
  SameTarget (err e) (err f) bytes = Unit {0}

  failed :
      (q : Result Error (Target × ℕ)) (e : Error) (bytes : List ℕ)
      → IsErr q
      → SameTarget (err e) q bytes
  failed (ok u) e bytes h = h
  failed (err f) e bytes h = tt

  tail_result :
      (front : List ℕ) (n : ℕ) (bytes : List ℕ) (t : Stream) (q : Result Error (Target × ℕ))
      → Framed front n
      → n ≤ length bytes
      → pending t ≡ drop n bytes
      → decode_target (front ++ take n bytes) ≡ q
      → SameTarget (q >>= λ u. ok (u.0, t)) q (front ++ bytes)
  tail_result front n bytes t (err e) f h p d = tt
  tail_result front n bytes t (ok (u, m)) f h p d =
      let used = f.whole (take n bytes) u m (omega (arith, length-take n bytes)) d in
      (refl, p ∙ sym (ap (λ k. drop k (front ++ bytes)) used ∙ drop_front front bytes n))

  read_tail_agrees :
      (front : List ℕ) (n : ℕ) (s : Stream) (bytes : List ℕ)
      → Framed front n
      → pending s ≡ bytes
      → SameTarget (read_tail io n front s) (decode_target (front ++ bytes)) (front ++ bytes)
  unfolding read_tail
  read_tail_agrees front n s bytes f e = elim (ReadExact-cases io n s) [
    | inl (h, r) ↦ rw r (failed _ read_failed (front ++ bytes) (f.short bytes (rw e at h)))
    | inr (t, h, r, p) ↦
        let whole = ap (◌++◌ front) (sym (take-append-drop n bytes)) in
        let same =
          f.long (take n bytes) (drop n bytes) (omega (arith, length-take n bytes, ap length e)) in
        rw (r, e, ap decode_target whole ∙ same)
          (tail_result front n bytes t (decode_target (front ++ take n bytes)) f
            (omega (arith, ap length e)) (p ∙ ap (drop n) e) refl)
  ]

  read_domain_agrees :
      (s : Stream) (bytes : List ℕ)
      → pending s ≡ bytes
      → SameTarget (read_domain io s) (decode_target (3 ∷ bytes)) (3 ∷ bytes)
  unfolding read_domain
  read_domain_agrees s [] e =
      rw (io.read_exact_end 1 s (omega (arith, ap length e)))
        (failed _ read_failed (3 ∷ []) (domain_missing))
  read_domain_agrees s (k ∷ rest) e =
      let (t, r, p) = read_exact-append io 1 s (k ∷ []) rest e refl in
      elim (Bool-cases (k == 0 || ltb 253 k)) [
        | inl bad ↦
            rw (r, bad) (failed _ invalid_domain_length (3 ∷ k ∷ rest) (bad_domain_len k rest bad))
        | inr good ↦ rw (r, good) (read_tail_agrees (3 ∷ k ∷ []) (k + 2) t rest (domain-Framed k) p)
      ]

  request_agrees :
      (s : Stream) (bytes : List ℕ)
      → pending s ≡ bytes
      → SameTarget (read_request io s) (decode_target bytes) bytes
  unfolding read_request
  request_agrees s [] e =
      rw (io.read_exact_end 1 s (omega (arith, ap length e)))
        (failed _ read_failed [] nothing_decoded)
  request_agrees s (a ∷ rest) e =
      let (t, r, p) = read_exact-append io 1 s (a ∷ []) rest e refl in
      elim (Bool-cases (a == 1)) [
        | inl x ↦
            let one = (==_iff a 1).0 x in
            rw (r, one) (read_tail_agrees (1 ∷ []) 6 t rest ipv4-Framed p)
        | inr x ↦ elim (Bool-cases (a == 4)) [
          | inl y ↦
              let four = (==_iff a 4).0 y in
              rw (r, four) (read_tail_agrees (4 ∷ []) 18 t rest ipv6-Framed p)
          | inr y ↦ elim (Bool-cases (a == 3)) [
            | inl z ↦ let three = (==_iff a 3).0 z in rw (r, three) (read_domain_agrees t rest p)
            | inr z ↦ rw (r, x, y, z, unknown_type a rest x y z) tt
          ]
        ]
      ]

  -- On every stream `read_request` fails exactly where `decode_target` fails on the bytes to
  -- come, and otherwise gives the same target and leaves the bytes that the target did not use.
  pub read_request-decode_target :
      (s : Stream) → SameTarget (read_request io s) (decode_target (pending s)) (pending s)
  read_request-decode_target s = request_agrees s (pending s) refl
