-- ===== src/Socks/NegotiateTests.antt =====
-- A client whose password is not the server's.
use nowhere.Common.{ℕ, ◌+◌, ◌≡◌, ◌≤◌, [], ◌∷◌, true, ◌↔◌, some, arith}
use nowhere.Socks.Negotiate.{Login, constant_time_equal}
use nowhere.Socks.Dialogue.{Net, Run, over}
use nowhere.Socks.ConstantTime.{constant_time_equal_iff}
use nowhere.Socks.Logins.{start}
use nowhere.Socks.Agreement.{Ends, negotiate-authenticate}

abbrev given : Login
given = (b'a' ∷ [], b'x' ∷ [])

abbrev asked : Login
asked = (b'a' ∷ [], b'y' ∷ b'z' ∷ [])

negotiate-authenticate_example :
    (end : Net) × (j : ℕ) × Ends (some given) (some asked) end
    × (0 + j ≤ 12)
    × Run j (start (some given) (some asked)) end
negotiate-authenticate_example =
    negotiate-authenticate (some given) (some asked) 0 (start (some given) (some asked))
      (omega arith, omega arith, omega arith, omega arith) (over (start (some given) (some asked)))

constant_time_equal_iff_example : (constant_time_equal given.1 asked.1 ≡ true) ↔ (given.1 ≡ asked.1)
constant_time_equal_iff_example = constant_time_equal_iff given.1 asked.1
