-- ===== src/Socks/Agreement.antt =====
-- src/common/socks/protocol.rs: `negotiate` and `authenticate` on the two sides of a connection.
use nowhere.Common.{ℕ, ◌+◌, ◌≡◌, ◌≤◌, refl, Option, none, some, ◌⊎◌, ◌≢◌, inl, inr, arith}
use nowhere.Socks.Negotiate.{
  agreed, authentication_failed, method_rejected, method_not_offered, credentials_rejected, Login,
}
use nowhere.Socks.Dialogue.{Net, Run, IsOver, Run-any}
use nowhere.Socks.Logins.{
  Fits, start, ends, judge-Judged, plain-Run, asked-Run, offered-Run, login-Run,
}

abbrev pub MayFit : Option Login → Type 0
MayFit none = Unit {0}
MayFit (some login) = Fits login

-- How both sides end, by what they were configured with.
abbrev pub Ends : Option Login → Option Login → Net → Type 0
Ends none none end = end ≡ ends agreed agreed
Ends none (some asked) end = end ≡ ends method_rejected method_not_offered
Ends (some given) none end = end ≡ ends method_rejected method_not_offered
Ends (some given) (some asked) end =
    ((given ≡ asked) × (end ≡ ends agreed agreed))
    ⊎ ((given ≢ asked) × (end ≡ ends authentication_failed credentials_rejected))

whole-Run :
    (client server : Option Login)
    → MayFit client
    → (end : Net) × (k : ℕ) × Ends client server end
      × IsOver end
      × (k ≤ 12)
      × Run k (start client server) end
whole-Run none none fits = (ends agreed agreed, 5, refl, (refl, refl), omega arith, plain-Run)
whole-Run none (some asked) fits =
    (ends method_rejected method_not_offered, 5, refl, (refl, refl), omega arith, asked-Run asked)
whole-Run (some given) none fits =
    (ends method_rejected method_not_offered, 5, refl, (refl, refl), omega arith, offered-Run given)
whole-Run (some given) (some asked) fits = elim (judge-Judged given asked) [
  | inl (same, judged) ↦ (
    ends agreed agreed,
    12,
    inl (same, refl),
    (refl, refl),
    omega arith,
    login-Run given asked agreed agreed 0 fits judged refl,
  )
  | inr (other, judged) ↦ (
    ends authentication_failed credentials_rejected,
    12,
    inr (other, refl),
    (refl, refl),
    omega arith,
    login-Run given asked credentials_rejected authentication_failed 1 fits judged refl,
  )
]

-- Let the client's login, where it has one, be a username and a password of 1 to 255 bytes each.
-- Any steps of the two sides, in any order, are at most 12 and go on to an end at which all bytes
-- are read: without logins both agree; where only one side has a login, the client's method is
-- rejected; with equal logins both agree, and with others the authentication fails on both sides.
pub negotiate-authenticate :
    (client server : Option Login) (i : ℕ) (net : Net)
    → MayFit client
    → Run i (start client server) net
    → (end : Net) × (j : ℕ) × Ends client server end × (i + j ≤ 12) × Run j net end
negotiate-authenticate client server i net fits run =
    let (end, k, ended, done, most, whole) = whole-Run client server fits in
    let (j, split, rest) = Run-any i k (start client server) net end run whole done in
    (end, j, ended, omega (arith, most, split), rest)
