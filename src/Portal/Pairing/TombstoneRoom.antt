-- ===== src/Portal/Pairing/TombstoneRoom.antt =====
-- src/portal/pairing.rs: the room for one more tombstone.
use nowhere.Common.{
  ℕ, ◌+◌, ◌≡◌, ◌≤◌, refl, sym, ◌∙◌, subst, List, [], ◌∷◌, Bool, true, ltb, leb, Bool-cases,
  Option-cases, ◌⊎◌, inl, inr, arith, if◌then◌else◌, length,
}
use nowhere.Common.Map.{get, remove, keep, count, count-remove, count-remove_lt, count-keep}
use nowhere.Portal.Pairing.{FlowKey, same_flow, TerminalRejection}
use nowhere.Portal.Pairing.Claims.{is_some}
use nowhere.Portal.Pairing.Reject.{first_to_expire, make_tombstone_room}
use nowhere.Portal.Pairing.State.{same_flow_eq}
use nowhere.Portal.Pairing.Generations.{same_flow_refl}

abbrev any : FlowKey → TerminalRejection → Bool
any key rejection = true

length-count : (m : List (FlowKey × TerminalRejection)) → length m ≡ count any m
length-count [] = refl
length-count (e ∷ m) = let rest = length-count m in omega (arith, rest)

pub length-remove :
    (k : FlowKey) (m : List (FlowKey × TerminalRejection))
    → length (remove same_flow k m) ≤ length m
length-remove k m =
    let less = count-remove same_flow any k m in
    rw (length-count m, length-count (remove same_flow k m)) less

length-remove_lt :
    (k : FlowKey) (m : List (FlowKey × TerminalRejection))
    → is_some (get same_flow k m) ≡ true
    → length (remove same_flow k m) + 1 ≤ length m
length-remove_lt k m there = elim (Option-cases (get same_flow k m)) [
  | inl e ↦ let no = subst (λ o. is_some o ≡ true) e there in cc
  | inr (v, e) ↦
      let less = count-remove_lt same_flow any same_flow_eq k m v e refl in
      rw (length-count m, length-count (remove same_flow k m)) less
]

head-there :
    (e : FlowKey × TerminalRejection) (m : List (FlowKey × TerminalRejection))
    → is_some (get same_flow e.0 (e ∷ m)) ≡ true
head-there e m = rw (same_flow_refl e.0) refl

tail-there :
    (k : FlowKey) (e : FlowKey × TerminalRejection) (m : List (FlowKey × TerminalRejection))
    → is_some (get same_flow k m) ≡ true
    → is_some (get same_flow k (e ∷ m)) ≡ true
tail-there k e m there = elim (Bool-cases (same_flow e.0 k)) [
  | inl h ↦ rw h refl
  | inr h ↦ rw h there
]

first_to_expire-there :
    (best : FlowKey × TerminalRejection) (m : List (FlowKey × TerminalRejection))
    → (first_to_expire best m ≡ best)
      ⊎ (is_some (get same_flow (first_to_expire best m).0 m) ≡ true)
first_to_expire-there best [] = inl refl
first_to_expire-there best (e ∷ m) =
    let chosen = if ltb e.1.expires_at best.1.expires_at then e else best in
    elim (first_to_expire-there chosen m) [
      | inr there ↦ inr (tail-there (first_to_expire chosen m).0 e m there)
      | inl same ↦ elim (Bool-cases (ltb e.1.expires_at best.1.expires_at)) [
        | inl h ↦
            let first : chosen ≡ e = rw h refl in
            inr (
              subst (λ b. is_some (get same_flow b.0 (e ∷ m)) ≡ true) (sym (same ∙ first))
                (head-there e m))
        | inr h ↦ let first : chosen ≡ best = rw h refl in inl (same ∙ first)
      ]
    ]

first-there :
    (e : FlowKey × TerminalRejection) (m : List (FlowKey × TerminalRejection))
    → is_some (get same_flow (first_to_expire e m).0 (e ∷ m)) ≡ true
first-there e m = elim (first_to_expire-there e m) [
  | inl same ↦ subst (λ b. is_some (get same_flow b.0 (e ∷ m)) ≡ true) (sym same) (head-there e m)
  | inr there ↦ tail-there (first_to_expire e m).0 e m there
]

-- One more fits where room was made.
pub room-length :
    (k : FlowKey) (limit : ℕ) (m : List (FlowKey × TerminalRejection))
    → 1 ≤ limit
    → length m ≤ limit
    → length (remove same_flow k (make_tombstone_room k limit m)) + 1 ≤ limit
room-length k limit [] some_room most = omega (arith, some_room)
room-length k limit (e ∷ m) some_room most =
    let fewer = length-remove k (e ∷ m) in
    elim (Bool-cases (is_some (get same_flow k (e ∷ m)))) [
      | inl there ↦
          let less = length-remove_lt k (e ∷ m) there in
          rw (make_tombstone_room, there) (omega (arith, less, most))
      | inr new ↦ elim (Bool-cases (leb limit (length (e ∷ m)))) [
        | inl full ↦
            let first = (first_to_expire e m).0 in
            let less = length-remove_lt first (e ∷ m) (first-there e m) in
            let after = length-remove k (remove same_flow first (e ∷ m)) in
            rw (make_tombstone_room, new, full) (omega (arith, less, after, most))
        | inr free ↦ rw (make_tombstone_room, new, free) (ground (arith, fewer, free))
      ]
    ]

pub length-keep :
    (test : FlowKey → TerminalRejection → Bool) (m : List (FlowKey × TerminalRejection))
    → length (keep test m) ≤ length m
length-keep test m =
    let less = count-keep any test m in rw (length-count m, length-count (keep test m)) less
