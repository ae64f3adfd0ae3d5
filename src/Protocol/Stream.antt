-- ===== src/Protocol/Stream.antt =====
-- tokio's `AsyncRead`, which the readers of `src/protocol` take as a type parameter: what they
-- rely on, stated of a stream that delivers `pending` and then ends. A transport error is `none`,
-- and so is an end of the stream in the middle of `read_exact`.
use nowhere.Common.{ℕ, ◌≤◌, ◌<◌, ◌≡◌, refl, ◌∙◌, ap, List, [], ◌∷◌, ◌++◌, Option, none, some, arith}
use nowhere.Common.{leb, if◌then◌else◌, length, take, drop, take-append, drop-append}
use nowhere.Common.{length-append, ◌⊎◌, inl, inr, Result, ok, err}
use nowhere.Protocol.Error.{Error}
use native.Mathlib.Decide.{dec_lt}

pub record AsyncRead : Type 1 where
  pub Stream : Type 0
  pub pending : Stream → List ℕ
  -- `reader.read(&mut [0; n])`
  pub read : ℕ → Stream → Option (List ℕ × Stream)
  -- `reader.read_exact(&mut [0; n])`
  pub read_exact : ℕ → Stream → Option (List ℕ × Stream)
  -- Into a buffer of one byte, `read` delivers one byte, or none at the end of the stream.
  pub read_some :
      (s : Stream) (b : ℕ) (rest : List ℕ)
      → pending s ≡ b ∷ rest
      → (t : Stream) × (read 1 s ≡ some (b ∷ [], t)) × (pending t ≡ rest)
  pub read_end :
      (s : Stream) → pending s ≡ [] → (t : Stream) × (read 1 s ≡ some ([], t)) × (pending t ≡ [])
  -- `read_exact` delivers the bytes that were asked for, or fails where the stream ends early.
  pub read_exact_all :
      (n : ℕ) (s : Stream)
      → n ≤ length (pending s)
      → (t : Stream) × (read_exact n s ≡ some (take n (pending s), t))
        × (pending t ≡ drop n (pending s))
  pub read_exact_end : (n : ℕ) (s : Stream) → length (pending s) < n → read_exact n s ≡ none

module _ (io : AsyncRead) where
  open io use {Stream, pending, read_exact, read_exact_all}

  -- `read_exact` on a stream that starts with as many bytes as are asked for.
  pub read_exact-append :
      (n : ℕ) (s : Stream) (front rest : List ℕ)
      → pending s ≡ front ++ rest
      → length front ≡ n
      → (t : Stream) × (read_exact n s ≡ some (front, t)) × (pending t ≡ rest)
  read_exact-append n s front rest e h =
      let (t, r, p) = read_exact_all n s (omega (arith, ap length e, length-append front rest)) in
      (
        t,
        r ∙ ap (λ xs. some (xs, t)) (ap (take n) e ∙ take-append n front rest h),
        p ∙ ap (drop n) e ∙ drop-append n front rest h,
      )

  -- Either the stream ends early and the read fails, or the bytes asked for are delivered.
  abbrev pub ReadExact : ℕ → Stream → Type 0
  ReadExact n s =
      ((length (pending s) < n) × (read_exact n s ≡ none))
      ⊎ ((t : Stream) × (n ≤ length (pending s))
          × (read_exact n s ≡ some (take n (pending s), t))
          × (pending t ≡ drop n (pending s)))

  pub ReadExact-cases : (n : ℕ) (s : Stream) → ReadExact n s
  ReadExact-cases n s = elim (dec_lt (length (pending s)) n) [
    | yes short ↦ inl (short, io.read_exact_end n s short)
    | no long ↦ let (t, r, p) = read_exact_all n s (omega arith) in inr (t, omega arith, r, p)
  ]

  -- A reader on a stream gives what a parser gives on the bytes to come, and leaves the bytes
  -- that the parser leaves.
  abbrev pub Agrees : {A : Type 0} → Result Error (A × Stream) → Result Error (A × List ℕ) → Type 0
  Agrees (ok (a, t)) (ok (b, rest)) = (a ≡ b) × (pending t ≡ rest)
  Agrees (ok (a, t)) (err e) = ⊥
  Agrees (err e) (ok (b, rest)) = ⊥
  Agrees (err e) (err f) = e ≡ f

  pub Agrees-ok :
      {A : Type 0} (r : Result Error (A × Stream)) (q : Result Error (A × List ℕ)) {a : A}
      {rest : List ℕ}
      → Agrees r q
      → q ≡ ok (a, rest)
      → (t : Stream) × (r ≡ ok (a, t)) × (pending t ≡ rest)
  Agrees-ok (ok (a, t)) (ok (b, rest)) h e = (t, ground arith, ground arith)
  Agrees-ok (ok (a, t)) (err f) h e = absurd h
  Agrees-ok (err f) (ok (b, rest)) h e = absurd h
  Agrees-ok (err f) (err g) h e = cc

  pub ok-Agrees :
      {A : Type 0} (r : Result Error (A × Stream)) (q : Result Error (A × List ℕ)) {a : A}
      {t : Stream}
      → Agrees r q
      → r ≡ ok (a, t)
      → q ≡ ok (a, pending t)
  ok-Agrees (ok (a, t)) (ok (b, rest)) h e = ground (arith, e)
  ok-Agrees (ok (a, t)) (err f) h e = absurd h
  ok-Agrees (err f) (ok (b, rest)) h e = absurd h
  ok-Agrees (err f) (err g) h e = cc

  pub Agrees-err :
      {A : Type 0} (r : Result Error (A × Stream)) (q : Result Error (A × List ℕ)) {e : Error}
      → Agrees r q
      → q ≡ err e
      → r ≡ err e
  Agrees-err (ok (a, t)) (ok (b, rest)) h e = cc
  Agrees-err (ok (a, t)) (err f) h e = absurd h
  Agrees-err (err f) (ok (b, rest)) h e = absurd h
  Agrees-err (err f) (err g) h e = cc

-- A stream held in memory, as Rust's `&[u8]` is: the interface can be met.
abbrev pub list_read : ℕ → List ℕ → Option (List ℕ × List ℕ)
list_read n s = some (take n s, drop n s)

abbrev pub list_read_exact : ℕ → List ℕ → Option (List ℕ × List ℕ)
list_read_exact n s = if leb n (length s) then some (take n s, drop n s) else none

pub list_read-some :
    (s : List ℕ) (b : ℕ) (rest : List ℕ)
    → s ≡ b ∷ rest
    → (t : List ℕ) × (list_read 1 s ≡ some (b ∷ [], t)) × (t ≡ rest)
list_read-some s b rest e = (rest, ap (λ xs. some (take 1 xs, drop 1 xs)) e, refl)

pub list_read_end : (s : List ℕ) → s ≡ [] → (t : List ℕ) × (list_read 1 s ≡ some ([], t)) × (t ≡ [])
list_read_end s e = ([], ap (λ xs. some (take 1 xs, drop 1 xs)) e, refl)

pub list_read_exact_all :
    (n : ℕ) (s : List ℕ)
    → n ≤ length s
    → (t : List ℕ) × (list_read_exact n s ≡ some (take n s, t)) × (t ≡ drop n s)
list_read_exact_all n s h = (drop n s, ground arith, refl)

pub list_read_exact_end : (n : ℕ) (s : List ℕ) → length s < n → list_read_exact n s ≡ none
list_read_exact_end n s h = ground arith

abbrev pub in_memory : AsyncRead
in_memory = record {
  Stream = List ℕ;
  pending = λ s. s;
  read = list_read;
  read_exact = list_read_exact;
  read_some = list_read-some;
  read_end = list_read_end;
  read_exact_all = list_read_exact_all;
  read_exact_end = list_read_exact_end;
}
