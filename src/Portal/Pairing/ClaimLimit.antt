-- ===== src/Portal/Pairing/ClaimLimit.antt =====
-- src/portal/pairing.rs: how many claims of a session wait, where claims are made, changed and
-- taken out.
use nowhere.Common.{
  ℕ, ◌+◌, ◌≡◌, ◌≤◌, refl, subst, List, true, false, ◌==◌, ==_iff, leb, some, Bool-cases, ◌⊎◌, inl,
  inr, arith,
}
use nowhere.Common.Map.{get, remove, put, count, count-remove, count-remove_lt}
use nowhere.Portal.Pairing.{FlowKey, same_flow, FlowClaim}
use nowhere.Portal.Pairing.Claims.{waits_in}
use nowhere.Portal.Pairing.State.{same_flow_eq}

-- No more claims wait than before.
abbrev pub NotMore : List (FlowKey × FlowClaim) → List (FlowKey × FlowClaim) → Type 0
NotMore before after =
    (session_id : ℕ) → count (waits_in session_id) after ≤ count (waits_in session_id) before

pub remove-NotMore :
    (k : FlowKey) (m : List (FlowKey × FlowClaim)) → NotMore m (remove same_flow k m)
remove-NotMore k m s = count-remove same_flow (waits_in s) k m

-- A claim that changes and is active, or was waiting.
pub put-NotMore :
    (k : FlowKey) (old new : FlowClaim) (m : List (FlowKey × FlowClaim))
    → get same_flow k m ≡ some old
    → (new.active ≡ true) ⊎ (old.active ≡ false)
    → NotMore m (put same_flow k new m)
put-NotMore k old new m e (inl h) s =
    let less = count-remove same_flow (waits_in s) k m in ground (arith, h, less)
put-NotMore k old new m e (inr h) s = elim (Bool-cases (k.session_id == s)) [
  | inl here ↦
      let fewer =
        count-remove_lt same_flow (waits_in s) same_flow_eq k m old e (rw (here, h) refl) in
      elim (Bool-cases new.active) [
        | inl a ↦ rw (here, a) (omega (arith, fewer))
        | inr a ↦ rw (here, a) (omega (arith, fewer))
      ]
  | inr other ↦ let less = count-remove same_flow (waits_in s) k m in rw other (omega (arith, less))
]

-- A new claim, where fewer wait in its session than may.
pub put-limit :
    (k : FlowKey) (new : FlowClaim) (m : List (FlowKey × FlowClaim)) (max_pending : ℕ)
    → leb max_pending (count (waits_in k.session_id) m) ≡ false
    → ((s : ℕ) → count (waits_in s) m ≤ max_pending)
    → (s : ℕ) → count (waits_in s) (put same_flow k new m) ≤ max_pending
put-limit k new m max_pending free limit s = elim (Bool-cases (k.session_id == s)) [
  | inl here ↦
      let less = count-remove same_flow (waits_in s) k m in
      let same : k.session_id ≡ s = (==_iff k.session_id s).0 here in
      let room : count (waits_in s) m + 1 ≤ max_pending =
        subst (λ i. count (waits_in i) m + 1 ≤ max_pending) same (ground (arith, free)) in
      elim (Bool-cases new.active) [
        | inl a ↦ rw (here, a) (omega (arith, less, room))
        | inr a ↦ rw (here, a) (omega (arith, less, room))
      ]
  | inr other ↦
      let less = count-remove same_flow (waits_in s) k m in rw other (omega (arith, less, limit s))
]
