-- ===== src/Portal/Pairing/Buried.antt =====
-- src/portal/pairing.rs: the tombstone of a rejected flow, behind the steps of other flows.
use nowhere.Common.{
  ℕ, ◌+◌, ◌≡◌, ◌≤◌, ◌<◌, refl, ◌∙◌, List, [], ◌∷◌, Bool, false, not, ltb, leb, ◌==◌, ◌&&◌, ◌||◌,
  Option, some, Bool-cases, Option-cases, inl, inr, arith, Result-cases, length,
}
use nowhere.Common.Map.{get, count, keep}
use nowhere.Common.MapKeep.{get-keep}
use nowhere.Protocol.Flow.{FlowRole, FlowKind}
use nowhere.Protocol.Setup.{FlowErrorCode}
use nowhere.Protocol.Target.{Target}
use nowhere.Portal.Pairing.{
  FlowKey, same_flow, Metadata, same_metadata, LinkHalf, TerminalRejection, Pending, Registry,
}
use nowhere.Portal.Pairing.Arms.{Half, fill, Filling-cases}
use nowhere.Portal.Pairing.Claims.{
  is_some, or_target, waits_in, all_current, active_quic_generation, reserve_claim, refresh_claim,
  abandon_claim, activate_claim, finish_flow, target_conflict, drop_permit,
}
use nowhere.Portal.Pairing.Reject.{
  pending_of, with_pending, make_tombstone_room, terminal_rejection, downlink_of, add_tombstone,
  take_pending,
}
use nowhere.Portal.Pairing.Install.{
  follow_claim, entry_or, new_pending, lacks_permit, settle, meet, place,
}
use nowhere.Portal.Pairing.State.{same_flow_eq}
use nowhere.Portal.Pairing.TombstoneRoom.{length-keep}
use nowhere.Portal.Pairing.Beside.{with_pending-Aside, drop_permit-Aside}
use nowhere.Portal.Pairing.Lease.{removed_other, put_other}

-- There is room, so that no tombstone goes.
free_room :
    (k : FlowKey) (limit : ℕ) (m : List (FlowKey × TerminalRejection))
    → length m < limit
    → make_tombstone_room k limit m ≡ m
free_room k limit [] free = refl
free_room k limit (e ∷ m) free = ground (arith, free)

module _ {U D L : Type 0} where
  pub follow_claim-rejections :
      (k : FlowKey) (p : Pending U D L) (gone : Bool) (r : Registry U D L)
      → (follow_claim k p gone r).rejections ≡ r.rejections
  follow_claim-rejections k p gone r = elim (Option-cases (get same_flow k r.claims)) [
    | inl e ↦ rw (follow_claim, e) refl
    | inr (claim, e) ↦ elim (Bool-cases claim.active) [
      | inl a ↦ rw (follow_claim, e, a) refl
      | inr a ↦ elim (Bool-cases gone) [
        | inl g ↦ rw (follow_claim, e, a, g) refl
        | inr g ↦ rw (follow_claim, e, a, g) refl
      ]
    ]
  ]

  pub reserve_claim-rejections :
      (k : FlowKey) (metadata : Metadata) (target : Option Target) (generation : Option ℕ)
      (r : Registry U D L)
      → (reserve_claim k metadata target generation r).1.rejections ≡ r.rejections
  unfolding reserve_claim
  reserve_claim-rejections k metadata target generation r =
      elim (Option-cases (get same_flow k r.claims)) [
        | inl e ↦ elim (Bool-cases (leb r.max_pending (count (waits_in k.session_id) r.claims))) [
          | inl full ↦ rw (reserve_claim, e, full) refl
          | inr free ↦ rw (reserve_claim, e, free) refl
        ]
        | inr (claim, e) ↦
            elim (Bool-cases (claim.active || not (same_metadata claim.metadata metadata))) [
              | inl c ↦ rw (reserve_claim, e, c) refl
              | inr c ↦ elim (Bool-cases (target_conflict claim.target target)) [
                | inl t ↦ rw (reserve_claim, e, c, t) refl
                | inr t ↦ rw (reserve_claim, e, c, t) refl
              ]
            ]
      ]

  pub abandon_claim-rejections :
      (k : FlowKey) (epoch : ℕ) (r : Registry U D L)
      → (abandon_claim k epoch r).rejections ≡ r.rejections
  unfolding abandon_claim
  abandon_claim-rejections k epoch r = elim (Option-cases (get same_flow k r.claims)) [
    | inl e ↦ rw (abandon_claim, e) refl
    | inr (claim, e) ↦ elim (Bool-cases (not claim.active && claim.epoch == epoch)) [
      | inl a ↦ rw (abandon_claim, e, a) refl
      | inr a ↦ rw (abandon_claim, e, a) refl
    ]
  ]

  pub finish_flow-rejections :
      (k : FlowKey) (epoch : ℕ) (r : Registry U D L)
      → (finish_flow k epoch r).rejections ≡ r.rejections
  unfolding finish_flow
  finish_flow-rejections k epoch r = elim (Option-cases (get same_flow k r.claims)) [
    | inl e ↦ rw (finish_flow, e) refl
    | inr (claim, e) ↦ elim (Bool-cases (claim.active && claim.epoch == epoch)) [
      | inl a ↦ rw (finish_flow, e, a) refl
      | inr a ↦ rw (finish_flow, e, a) refl
    ]
  ]

  pub activate_claim-rejections :
      (k : FlowKey) (epoch : ℕ) (gs : List ℕ) (permit : Option ℕ) (r : Registry U D L)
      → (activate_claim k epoch gs permit r).1.rejections ≡ r.rejections
  unfolding activate_claim
  activate_claim-rejections k epoch gs permit r =
      elim (Bool-cases (all_current gs (active_quic_generation k.session_id r))) [
        | inr c ↦ rw (activate_claim, c) refl
        | inl c ↦ elim (Option-cases (get same_flow k r.claims)) [
          | inl e ↦ rw (activate_claim, c, e) refl
          | inr (claim, e) ↦ rw (activate_claim, c, e) refl
        ]
      ]

  refresh_claim-rejections :
      (k : FlowKey) (r : Registry U D L) → (refresh_claim k r).1.rejections ≡ r.rejections
  unfolding refresh_claim
  refresh_claim-rejections k r = elim (Option-cases (get same_flow k r.claims)) [
    | inl e ↦ rw (refresh_claim, e) refl
    | inr (claim, e) ↦ rw (refresh_claim, e) refl
  ]

  freed-rejections :
      (permit : Option ℕ) (kind : FlowKind) (m : List (FlowKey × Pending U D L))
      (r : Registry U D L)
      → (drop_permit permit (with_pending kind m r)).rejections ≡ r.rejections
  freed-rejections permit kind m r =
      (drop_permit-Aside permit (with_pending kind m r)).rejections
      ∙ (with_pending-Aside kind m r).rejections

  settle-rejections :
      (kind : FlowKind) (k : FlowKey) (p : Pending U D L) (r : Registry U D L)
      → (settle kind k p r).0.rejections ≡ r.rejections
  unfolding settle
  settle-rejections kind k p r = elim (Bool-cases (is_some p.uplink && is_some p.downlink)) [
    | inl both ↦ elim (Bool-cases (lacks_permit kind p)) [
      | inl n ↦
          rw (settle, both, n)
            (abandon_claim-rejections k p.epoch _ ∙ (with_pending-Aside kind _ r).rejections)
      | inr n ↦ rw (settle, both, n) ((with_pending-Aside kind _ r).rejections)
    ]
    | inr one ↦ elim (Result-cases (refresh_claim k r).0) [
      | inl (epoch, e) ↦
          rw (settle, one, e)
            ((with_pending-Aside kind _ (refresh_claim k r).1).rejections
              ∙ refresh_claim-rejections k r)
      | inr (code, e) ↦
          rw (settle, one, e)
            (freed-rejections p.flow_permit kind _ (refresh_claim k r).1
              ∙ refresh_claim-rejections k r)
    ]
  ]

  pub place-rejections :
      (kind : FlowKind) (k : FlowKey) (role : FlowRole) (metadata : Metadata)
      (target : Option Target) (link : LinkHalf) (half : Half U D L) (permit : Option ℕ) (epoch : ℕ)
      (r : Registry U D L)
      → (place kind k role metadata target link half permit epoch r).0.rejections ≡ r.rejections
  unfolding place meet
  place-rejections kind k role metadata target link half permit epoch r =
      let new = new_pending epoch metadata (active_quic_generation k.session_id r) target in
      let p = entry_or new (get same_flow k (pending_of kind r)) in
      let p' : Pending U D L = record p { target = or_target p.target target } in
      elim (Bool-cases (same_metadata p.metadata metadata)) [
        | inr h ↦ rw (place, meet, h) (freed-rejections permit kind _ r)
        | inl h ↦ elim (Filling-cases (fill kind role link half permit p')) [
          | inl (q, f) ↦ rw (place, meet, h, f) (settle-rejections kind k q r)
          | inr (inl (d, f)) ↦ rw (place, meet, h, f) (freed-rejections permit kind _ r)
          | inr (inr f) ↦ rw (place, meet, h, f) (freed-rejections permit kind _ r)
        ]
      ]

  -- The tombstone of the flow.
  abbrev pub Buried : FlowKey → TerminalRejection → Registry U D L → Type 0
  Buried key tombstone r = get same_flow key r.rejections ≡ some tombstone

  pub terminal_rejection-Buried :
      (key k : FlowKey) (tombstone : TerminalRejection) (consume : Bool) (now : ℕ)
      (r : Registry U D L)
      → now + 1 ≤ tombstone.expires_at
      → (consume && same_flow k key) ≡ false
      → Buried key tombstone r
      → Buried key tombstone (terminal_rejection k consume now r).1
  unfolding terminal_rejection
  terminal_rejection-Buried key k tombstone consume now r soon other buried =
      let live = keep (λ k rejection. ltb now rejection.expires_at) r.rejections in
      let there : get same_flow key live ≡ some tombstone =
        get-keep same_flow same_flow_eq key tombstone (λ k rejection. ltb now rejection.expires_at)
          r.rejections buried (ground (arith, soon)) in
      elim (Bool-cases consume) [
        | inr h ↦ rw (terminal_rejection, h) there
        | inl h ↦
            rw (terminal_rejection, h) (removed_other k key live (ground (arith, h, other)) ∙ there)
      ]

  pub take_pending-Buried :
      (key k : FlowKey) (tombstone : TerminalRejection) (code : FlowErrorCode) (now : ℕ)
      (r : Registry U D L)
      → now + 1 ≤ tombstone.expires_at
      → same_flow k key ≡ false
      → length r.rejections < r.max_pending
      → Buried key tombstone r
      → Buried key tombstone (take_pending k code now r)
  unfolding take_pending add_tombstone
  take_pending-Buried key k tombstone code now r soon other free buried =
      let live = keep (λ k rejection. ltb now rejection.expires_at) r.rejections in
      let there : get same_flow key live ≡ some tombstone =
        get-keep same_flow same_flow_eq key tombstone (λ k rejection. ltb now rejection.expires_at)
          r.rejections buried (ground (arith, soon)) in
      let less = length-keep (λ k rejection. ltb now rejection.expires_at) r.rejections in
      let room = free_room k r.max_pending live (omega (arith, less, free)) in
      elim (Bool-cases (
        not (is_some (downlink_of (get same_flow k r.tcp)))
        && not (is_some (downlink_of (get same_flow k r.udp))))) [
          | inl t ↦ rw (take_pending, t, room) (put_other k key _ live other ∙ there)
          | inr t ↦ rw (take_pending, t) buried
        ]
