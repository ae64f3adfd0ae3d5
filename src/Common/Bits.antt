-- ===== src/Common/Bits.antt =====
-- When the bitwise or, and the bitwise exclusive or, of two numbers are 0.
use Prim.Native.Nat.{
  ℕ, zero, suc, ◌≤◌, ◌/◌, ◌%◌, max, digits, differ, bit_or, bit_or-bitwise, bit_xor,
  bit_xor-bitwise,
}
use mathlib.Core.Path.{◌≡◌, refl, sym, ◌∙◌}
use native.Mathlib.Omega.{arith}

differ-zero : (x y : ℕ) → differ x y ≡ 0 → x ≡ y
differ-zero zero y e = sym e
differ-zero (suc x) zero e = e
differ-zero (suc x) (suc y) e = let same = differ-zero x y e in omega (arith, same)

differ_self : (x : ℕ) → differ x x ≡ 0
differ_self zero = refl
differ_self (suc x) = differ_self x

digits-differ : (n a b : ℕ) → a ≤ n → digits (λ b. b) differ n a b ≡ 0 → a ≡ b
digits-differ zero a b h e = omega (arith, h, e)
digits-differ (suc n) zero b h e = sym e
digits-differ (suc n) (suc a) b h e =
    let high = digits (λ b. b) differ n (suc a / 2) (b / 2) in
    let low = differ (suc a % 2) (b % 2) in
    let high_zero : high ≡ 0 = omega (arith, e) in
    let low_zero : low ≡ 0 = omega (arith, e) in
    let halves = digits-differ n (suc a / 2) (b / 2) (omega (arith, h)) high_zero in
    let ends = differ-zero (suc a % 2) (b % 2) low_zero in omega (arith, halves, ends)

digits_self : (n a : ℕ) → a ≤ n → digits (λ b. b) differ n a a ≡ 0
digits_self zero a h = omega (arith, h)
digits_self (suc n) zero h = refl
digits_self (suc n) (suc a) h =
    let halves = digits_self n (suc a / 2) (omega (arith, h)) in
    let ends = differ_self (suc a % 2) in omega (arith, halves, ends)

digits-max : (n a b : ℕ) → a ≤ n → digits (λ b. b) max n a b ≡ 0 → (a ≡ 0) × (b ≡ 0)
digits-max zero a b h e = (omega (arith, h), e)
digits-max (suc n) zero b h e = (refl, e)
digits-max (suc n) (suc a) b h e =
    let high = digits (λ b. b) max n (suc a / 2) (b / 2) in
    let high_zero : high ≡ 0 = omega (arith, e) in
    let halves = digits-max n (suc a / 2) (b / 2) (omega (arith, h)) high_zero in
    (omega (arith, halves.0, e), omega (arith, halves.0, e))

xor_digits : (a b : ℕ) → bit_xor a b ≡ digits (λ b. b) differ a a b
xor_digits a b = bit_xor-bitwise a b

or_digits : (a b : ℕ) → bit_or a b ≡ digits (λ b. b) max a a b
or_digits a b = bit_or-bitwise a b

pub bit_xor-zero : (a b : ℕ) → bit_xor a b ≡ 0 → a ≡ b
bit_xor-zero a b e = digits-differ a a b (omega arith) (sym (xor_digits a b) ∙ e)

pub bit_xor_self : (a : ℕ) → bit_xor a a ≡ 0
bit_xor_self a = xor_digits a a ∙ digits_self a a (omega arith)

pub bit_or-zero : (a b : ℕ) → bit_or a b ≡ 0 → (a ≡ 0) × (b ≡ 0)
bit_or-zero a b e = digits-max a a b (omega arith) (sym (or_digits a b) ∙ e)
