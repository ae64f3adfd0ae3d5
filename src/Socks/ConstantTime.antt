-- ===== src/Socks/ConstantTime.antt =====
-- `constant_time_equal` of src/common/socks/protocol.rs.
use nowhere.Common.{
  ℕ, zero, suc, ◌≡◌, refl, ap, ◌∙◌, subst, max, List, [], ◌∷◌, true, ==_iff, length, drop, ◌↔◌,
  arith,
}
use Prim.Native.Nat.{bit_xor}
use nowhere.Common.Bits.{bit_or-zero, bit_xor-zero, bit_xor_self}
use nowhere.Socks.Negotiate.{byte_of, compare_bytes, constant_time_equal}

compare_bytes-zero : (n : ℕ) (l r : List ℕ) (diff : ℕ) → compare_bytes n l r diff ≡ 0 → diff ≡ 0
compare_bytes-zero zero l r diff e = e
compare_bytes-zero (suc n) l r diff e =
    (bit_or-zero diff _ (compare_bytes-zero n (drop 1 l) (drop 1 r) _ e)).0

compare_bytes-same :
    (n : ℕ) (l r : List ℕ) (diff : ℕ)
    → length l ≡ n
    → length r ≡ n
    → compare_bytes n l r diff ≡ 0
    → l ≡ r
compare_bytes-same zero [] [] diff a b e = refl
compare_bytes-same zero [] (y ∷ r) diff a b e = cc
compare_bytes-same zero (x ∷ l) r diff a b e = cc
compare_bytes-same (suc n) [] r diff a b e = cc
compare_bytes-same (suc n) (x ∷ l) [] diff a b e = cc
compare_bytes-same (suc n) (x ∷ l) (y ∷ r) diff a b e =
    let rest = compare_bytes-same n l r _ (omega (arith, a)) (omega (arith, b)) e in
    let here = bit_xor-zero x y (bit_or-zero diff (bit_xor x y) (compare_bytes-zero n l r _ e)).1 in
    ap (λ z. z ∷ l) here ∙ ap (λ zs. y ∷ zs) rest

compare_bytes_self : (n : ℕ) (l : List ℕ) → compare_bytes n l l 0 ≡ 0
compare_bytes_self zero l = refl
compare_bytes_self (suc n) l = rw (bit_xor_self (byte_of l 0)) (compare_bytes_self n (drop 1 l))

-- The comparison in constant time accepts two slices exactly when they are equal.
pub constant_time_equal_iff : (l r : List ℕ) → (constant_time_equal l r ≡ true) ↔ (l ≡ r)
unfolding constant_time_equal
constant_time_equal_iff l r = (
  λ e.
      let zero_diff = (==_iff _ 0).0 e in
      let lengths =
        bit_xor-zero (length l) (length r)
          (compare_bytes-zero (max (length l) (length r)) l r _ zero_diff) in
      compare_bytes-same (max (length l) (length r)) l r _ (omega (arith, lengths))
        (omega (arith, lengths)) zero_diff,
  λ e.
      subst (λ s. constant_time_equal l s ≡ true) e
        (rw
          (
            constant_time_equal,
            bit_xor_self (length l),
            compare_bytes_self (max (length l) (length l)) l,
          )
          refl),
)
