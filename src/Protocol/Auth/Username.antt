-- ===== src/Protocol/Auth/Username.antt =====
-- src/protocol/util.rs, `decode_url_username`: the loop that checks the escapes of a username.
use nowhere.Common.{
  ℕ, ◌≡◌, ◌≢◌, ◌↔◌, List, [], ◌∷◌, Bool, true, false, not, ◌==◌, leb, ◌&&◌, ◌||◌, if◌then◌else◌,
  arith, Bool-cases, inl, inr, refl, ◌∙◌,
}

-- `u8::is_ascii_hexdigit`
unfoldable pub is_ascii_hexdigit : ℕ → Bool
is_ascii_hexdigit c =
    (leb b'0' c && leb c b'9') || (leb b'a' c && leb c b'f') || (leb b'A' c && leb c b'F')

-- The `while` loop: the list is what `index` has not passed.
unfoldable pub escapes_well_formed : List ℕ → Bool
escapes_well_formed [] = true
escapes_well_formed (b ∷ []) = not (b == b'%')
escapes_well_formed (b ∷ c ∷ []) =
    let rest = escapes_well_formed (c ∷ []) in if b == b'%' then false else rest
escapes_well_formed (b ∷ c ∷ d ∷ bytes) =
    let after_escape = escapes_well_formed bytes in
    let after_byte = escapes_well_formed (c ∷ d ∷ bytes) in
    if b == b'%'
    then (if is_ascii_hexdigit c && is_ascii_hexdigit d then after_escape else false)
    else after_byte

-- A username in which two hexadecimal digits follow every percent sign.
pub data Escaped : List ℕ → Type 0 where
  done : Escaped []
  plain : {b : ℕ} {bytes : List ℕ} → b ≢ b'%' → Escaped bytes → Escaped (b ∷ bytes)
  escape :
      {b c d : ℕ} {bytes : List ℕ}
      → b ≡ b'%'
      → is_ascii_hexdigit c ≡ true
      → is_ascii_hexdigit d ≡ true
      → Escaped bytes
      → Escaped (b ∷ c ∷ d ∷ bytes)

plain_step :
    (b : ℕ) (bytes : List ℕ)
    → b ≢ b'%'
    → escapes_well_formed (b ∷ bytes) ≡ escapes_well_formed bytes
unfolding escapes_well_formed
plain_step b [] h = ground arith
plain_step b (c ∷ []) h = ground arith
plain_step b (c ∷ d ∷ bytes) h = ground arith

escape_step :
    (b c d : ℕ) (bytes : List ℕ)
    → b ≡ b'%'
    → is_ascii_hexdigit c ≡ true
    → is_ascii_hexdigit d ≡ true
    → escapes_well_formed (b ∷ c ∷ d ∷ bytes) ≡ escapes_well_formed bytes
unfolding escapes_well_formed
escape_step b c d bytes h hc hd = ground arith

Escaped-escapes_well_formed : {bytes : List ℕ} → Escaped bytes → escapes_well_formed bytes ≡ true
Escaped-escapes_well_formed done = unfold escapes_well_formed in refl
Escaped-escapes_well_formed (plain {b = b} {bytes = bytes} h e) =
    plain_step b bytes h ∙ Escaped-escapes_well_formed e
Escaped-escapes_well_formed (escape h hc hd e) =
    escape_step _ _ _ _ h hc hd ∙ Escaped-escapes_well_formed e

escapes_well_formed-Escaped : (bytes : List ℕ) → escapes_well_formed bytes ≡ true → Escaped bytes
unfolding escapes_well_formed
escapes_well_formed-Escaped [] e = done
escapes_well_formed-Escaped (b ∷ []) e = plain (ground arith) done
escapes_well_formed-Escaped (b ∷ c ∷ []) e =
    plain (ground arith) (escapes_well_formed-Escaped (c ∷ []) (ground arith))
escapes_well_formed-Escaped (b ∷ c ∷ d ∷ bytes) e = elim (Bool-cases (b == b'%')) [
  | inl p ↦
      escape (ground arith) (ground arith) (ground arith)
        (escapes_well_formed-Escaped bytes (ground arith))
  | inr p ↦ plain (ground arith) (escapes_well_formed-Escaped (c ∷ d ∷ bytes) (ground arith))
]

-- The loop accepts a username exactly when two hexadecimal digits follow each percent sign that
-- no earlier escape has used up.
pub escapes_well_formed_iff : (bytes : List ℕ) → (escapes_well_formed bytes ≡ true) ↔ Escaped bytes
escapes_well_formed_iff bytes = (escapes_well_formed-Escaped bytes, Escaped-escapes_well_formed)
