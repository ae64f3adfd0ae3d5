-- ===== src/Common/Bytes.antt =====
-- Bytes, and the big-endian integers of the wire: `to_be_bytes` and `from_be_bytes`.
use Prim.Native.Nat.{ℕ, zero, suc, ◌+◌, ◌*◌, ◌/◌, ◌%◌, ◌≤◌, ◌<◌}
use mathlib.Core.Path.{◌≡◌, refl}
use mathlib.Core.Bool.{Bool, true, false}
use mathlib.Core.List.{List, [], ◌∷◌, ◌++◌}
use native.Mathlib.Omega.{arith}
use nowhere.Common.Lists.{All, length, take}
use nowhere.Common.Tests.{if◌then◌else◌}

abbrev pub IsByte : ℕ → Type 0
IsByte b = b < 256

abbrev pub AreBytes : List ℕ → Type 0
AreBytes = All IsByte

abbrev pub u16_bytes : ℕ → List ℕ
u16_bytes n = (n / 256 % 256) ∷ (n % 256) ∷ []

abbrev pub u16_of : ℕ → ℕ → ℕ
u16_of a b = a * 256 + b

abbrev pub u32_bytes : ℕ → List ℕ
u32_bytes n = (n / 16_777_216 % 256) ∷ (n / 65_536 % 256) ∷ (n / 256 % 256) ∷ (n % 256) ∷ []

abbrev pub u32_of : ℕ → ℕ → ℕ → ℕ → ℕ
u32_of a b c d = a * 16_777_216 + b * 65_536 + c * 256 + d

-- The integer in the first two bytes of a slice that has them.
abbrev pub u16_at : List ℕ → ℕ
u16_at [] = 0
u16_at (a ∷ []) = 0
u16_at (a ∷ b ∷ rest) = u16_of a b

pub u16_at-u16_bytes : (n : ℕ) (rest : List ℕ) → n < 65_536 → u16_at (u16_bytes n ++ rest) ≡ n
u16_at-u16_bytes n rest h = omega arith

pub u16_at-append : (xs ys : List ℕ) → 2 ≤ length xs → u16_at (xs ++ ys) ≡ u16_at xs
u16_at-append [] ys h = absurd (omega arith)
u16_at-append (x ∷ []) ys h = absurd (omega arith)
u16_at-append (x ∷ y ∷ xs) ys h = refl

pub u16_bytes-u16_at :
    (xs : List ℕ) → 2 ≤ length xs → AreBytes xs → u16_bytes (u16_at xs) ≡ take 2 xs
u16_bytes-u16_at [] h b = absurd (omega arith)
u16_bytes-u16_at (x ∷ []) h b = absurd (omega arith)
u16_bytes-u16_at (x ∷ y ∷ xs) h b = ground arith

-- Every number under the limit passes the test: a table that is checked by evaluation.
unfoldable pub holds_under : (ℕ → Bool) → ℕ → Bool
holds_under test zero = true
holds_under test (suc limit) = if test limit then holds_under test limit else false

pub holds_under_lem :
    (test : ℕ → Bool) (limit value : ℕ)
    → holds_under test limit ≡ true
    → value < limit
    → test value ≡ true
unfolding holds_under
holds_under_lem test zero value passed small = absurd (omega arith)
holds_under_lem test (suc limit) value passed small =
    let earlier = holds_under_lem test limit value in ground (arith, earlier)
