-- ===== src/Protocol/Domain.antt =====
-- src/protocol/util.rs: the domain names that the wire accepts.
pub mod Labels
use nowhere.Common.{
  ℕ, ◌≡◌, List, [], ◌∷◌, Bool, true, false, not, ◌==◌, ltb, leb, ◌&&◌, ◌||◌, if◌then◌else◌, length,
  all, is_empty, Option, none, some, Result, ok, err, ◌>>=◌, ◌>>◌, bail_if,
}
use nowhere.Protocol.Error.{
  Error, zero_port, invalid_domain_length, domain_not_ascii, invalid_label_length, label_hyphen,
  invalid_label_bytes,
}

abbrev pub domain_len_max : ℕ
domain_len_max = 253

unfoldable pub validate_port : ℕ → Result Error (Unit {0})
validate_port port = bail_if (port == 0) zero_port

-- `u8::is_ascii_alphanumeric`
abbrev pub is_ascii_alphanumeric : ℕ → Bool
is_ascii_alphanumeric c =
    (leb b'0' c && leb c b'9') || (leb b'a' c && leb c b'z') || (leb b'A' c && leb c b'Z')

-- `<[u8]>::is_ascii`
abbrev pub is_ascii : List ℕ → Bool
is_ascii = all (λ b. ltb b 128)

-- The pieces between the dots, `domain.split(|byte| *byte == b'.')`: one more than there are
-- dots. A byte that is no dot goes to the front of the first piece of the rest.
abbrev pub add_front : ℕ → List (List ℕ) → List (List ℕ)
add_front b [] = (b ∷ []) ∷ []
add_front b (piece ∷ pieces) = (b ∷ piece) ∷ pieces

pub split_dots : List ℕ → List (List ℕ)
split_dots [] = [] ∷ []
split_dots (b ∷ bytes) =
    let pieces = split_dots bytes in if b == b'.' then [] ∷ pieces else add_front b pieces

-- `label.first() == Some(&b'-')` and `label.last() == Some(&b'-')`
abbrev pub starts_with_hyphen : List ℕ → Bool
starts_with_hyphen [] = false
starts_with_hyphen (b ∷ bytes) = b == b'-'

abbrev pub ends_with_hyphen : List ℕ → Bool
ends_with_hyphen [] = false
ends_with_hyphen (b ∷ []) = b == b'-'
ends_with_hyphen (b ∷ c ∷ bytes) = ends_with_hyphen (c ∷ bytes)

-- The body of the loop over the labels.
pub validate_label : List ℕ → Result Error (Unit {0})
validate_label label = do
  bail_if (is_empty label || ltb 63 (length label)) invalid_label_length
  bail_if (starts_with_hyphen label || ends_with_hyphen label) label_hyphen
  bail_if (not (all (λ b. is_ascii_alphanumeric b || b == b'-') label)) invalid_label_bytes

pub validate_labels : List (List ℕ) → Result Error (Unit {0})
validate_labels [] = ok tt
validate_labels (label ∷ labels) = do validate_label label; validate_labels labels

unfoldable pub validate_domain_bytes : List ℕ → Result Error (Unit {0})
validate_domain_bytes domain = do
  bail_if (is_empty domain || ltb domain_len_max (length domain)) invalid_domain_length
  bail_if (not (is_ascii domain)) domain_not_ascii
  validate_labels (split_dots domain)
