-- ===== src/Socks/Dialogue.antt =====
-- src/common/socks/protocol.rs: two talks over a pair of byte streams, each side at its own pace.
use nowhere.Common.{
  ℕ, suc, ◌+◌, ◌≡◌, ◌≤◌, refl, sym, ap, ◌∙◌, subst, List, [], ◌++◌, true, leb, Option, none, some,
  if◌then◌else◌, length, length-append, take, drop, take-append_le, drop-append_le, Bool-cases, inl,
  inr, arith,
}
use nowhere.Socks.Negotiate.{Talk, finished, writes, reads}

-- The two sides, and the bytes that are on their way to each.
pub record Net : Type 0 where
  pub client : Talk
  pub server : Talk
  pub to_server : List ℕ
  pub to_client : List ℕ

-- One step of a side: where it goes on, what it leaves of the bytes for it, and what it writes.
abbrev pub talk_step : Talk → List ℕ → Option (Talk × List ℕ × List ℕ)
talk_step (finished ending) arrived = none
talk_step (writes bytes next) arrived = some (next, arrived, bytes)
talk_step (reads n next) arrived =
    if leb n (length arrived) then some (next (take n arrived), drop n arrived, []) else none

abbrev pub client_moves : Net → Talk × List ℕ × List ℕ → Net
client_moves net (next, left, written) = record {
  client = next;
  server = net.server;
  to_server = net.to_server ++ written;
  to_client = left;
}

abbrev pub server_moves : Net → Talk × List ℕ × List ℕ → Net
server_moves net (next, left, written) = record {
  client = net.client;
  server = next;
  to_server = left;
  to_client = net.to_client ++ written;
}

-- Some steps of the sides, in an order.
pub data Run : ℕ → Net → Net → Type 0 where
  over : (net : Net) → Run 0 net net
  client_goes :
      (k : ℕ) (net end : Net) (move : Talk × List ℕ × List ℕ)
      → talk_step net.client net.to_client ≡ some move
      → Run k (client_moves net move) end
      → Run (suc k) net end
  server_goes :
      (k : ℕ) (net end : Net) (move : Talk × List ℕ × List ℕ)
      → talk_step net.server net.to_server ≡ some move
      → Run k (server_moves net move) end
      → Run (suc k) net end

-- Neither side can go on.
abbrev pub IsOver : Net → Type 0
IsOver net =
    (talk_step net.client net.to_client ≡ none) × (talk_step net.server net.to_server ≡ none)

-- More bytes that arrive do not change a step.
talk_step-more :
    (talk : Talk) (arrived more : List ℕ) (move : Talk × List ℕ × List ℕ)
    → talk_step talk arrived ≡ some move
    → talk_step talk (arrived ++ more) ≡ some (move.0, move.1 ++ more, move.2)
talk_step-more (finished ending) arrived more move e = cc
talk_step-more (writes bytes next) arrived more move e =
    ap (λ o. elim o [ none ↦ none | some m ↦ some (m.0, m.1 ++ more, m.2) ]) e
talk_step-more (reads n next) arrived more move e = elim (Bool-cases (leb n (length arrived))) [
  | inr h ↦ let no : talk_step (reads n next) arrived ≡ none = rw h refl in cc
  | inl h ↦
      let long : n ≤ length arrived = ground (arith, h) in
      let first : talk_step (reads n next) arrived
          ≡ some (next (take n arrived), drop n arrived, []) =
        rw h refl in
      let enough : leb n (length (arrived ++ more)) ≡ true =
        let both = length-append arrived more in ground (arith, long, both) in
      let then_step : talk_step (reads n next) (arrived ++ more)
          ≡ some (next (take n arrived), drop n arrived ++ more, []) =
        rw
          (
            talk_step,
            enough,
            take-append_le n arrived more long,
            drop-append_le n arrived more long,
          )
          refl in
      then_step
      ∙ ap (λ o. elim o [ none ↦ none | some m ↦ some (m.0, m.1 ++ more, m.2) ]) (sym first ∙ e)
]

some_move :
    (a b : Talk × List ℕ × List ℕ)
    → ◌≡◌ {A = Option (Talk × List ℕ × List ℕ)} (some a) (some b)
    → a ≡ b
some_move a b e = ap (λ o. elim o [ none ↦ a | some m ↦ m ]) e

-- A step of the client can come first, and the run ends where it did.
client-first :
    (k : ℕ) (net end : Net) (move : Talk × List ℕ × List ℕ)
    → Run k net end
    → IsOver end
    → talk_step net.client net.to_client ≡ some move
    → (j : ℕ) × (k ≡ suc j) × Run j (client_moves net move) end
client-first _ _ _ move (over net) done e = let no = done.0 in cc
client-first _ _ _ move (client_goes k net end other f run) done e =
    (k, refl, subst (λ m. Run k (client_moves net m) end) (some_move other move (sym f ∙ e)) run)
client-first _ _ _ move (server_goes k net end other f run) done e =
    let (j, same, rest) =
      client-first k (server_moves net other) end (move.0, move.1 ++ other.2, move.2) run done
        (talk_step-more net.client net.to_client other.2 move e) in
    let server = talk_step-more net.server net.to_server move.2 other f in
    (
      suc j,
      ap suc same,
      server_goes j (client_moves net move) end (other.0, other.1 ++ move.2, other.2) server rest,
    )

server-first :
    (k : ℕ) (net end : Net) (move : Talk × List ℕ × List ℕ)
    → Run k net end
    → IsOver end
    → talk_step net.server net.to_server ≡ some move
    → (j : ℕ) × (k ≡ suc j) × Run j (server_moves net move) end
server-first _ _ _ move (over net) done e = let no = done.1 in cc
server-first _ _ _ move (server_goes k net end other f run) done e =
    (k, refl, subst (λ m. Run k (server_moves net m) end) (some_move other move (sym f ∙ e)) run)
server-first _ _ _ move (client_goes k net end other f run) done e =
    let (j, same, rest) =
      server-first k (client_moves net other) end (move.0, move.1 ++ other.2, move.2) run done
        (talk_step-more net.server net.to_server other.2 move e) in
    let client = talk_step-more net.client net.to_client move.2 other f in
    (
      suc j,
      ap suc same,
      client_goes j (server_moves net move) end (other.0, other.1 ++ move.2, other.2) client rest,
    )

-- Where one order of steps ends, every other one leads.
pub Run-any :
    (i k : ℕ) (net s end : Net)
    → Run i net s
    → Run k net end
    → IsOver end
    → (j : ℕ) × (k ≡ i + j) × Run j s end
Run-any _ k _ _ end (over net) run done = (k, omega arith, run)
Run-any _ k _ _ end (client_goes i net s move e rest) run done =
    let (j, less, run') = client-first k net end move run done e in
    let (n, same, last) = Run-any i j (client_moves net move) s end rest run' done in
    (n, omega (arith, less, same), last)
Run-any _ k _ _ end (server_goes i net s move e rest) run done =
    let (j, less, run') = server-first k net end move run done e in
    let (n, same, last) = Run-any i j (server_moves net move) s end rest run' done in
    (n, omega (arith, less, same), last)
