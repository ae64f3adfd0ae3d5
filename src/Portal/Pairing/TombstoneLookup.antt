-- ===== src/Portal/Pairing/TombstoneLookup.antt =====
-- src/portal/pairing.rs: who looks a rejected flow up, whatever the other tasks do in between.
use nowhere.Common.{
  ℕ, ◌+◌, ◌≡◌, ◌≤◌, ◌<◌, refl, ap, ◌∙◌, Bool, true, false, ltb, ◌&&◌, some, arith, length,
}
use nowhere.Common.Map.{get, keep, put}
use nowhere.Common.MapKeep.{get-keep}
use nowhere.Protocol.Setup.{FlowErrorCode}
use nowhere.Protocol.Target.{Target}
use nowhere.Portal.Pairing.{FlowKey, same_flow, Metadata, TerminalRejection, Registry}
use nowhere.Portal.Pairing.Reject.{
  is_active, make_tombstone_room, terminal_rejection, take_pending, add_tombstone,
  reject_flow_setup,
}
use nowhere.Portal.Pairing.Cancel.{cancel_active_quic_generation}
use nowhere.Portal.Pairing.State.{same_flow_eq}
use nowhere.Portal.Pairing.Generations.{same_flow_refl}
use nowhere.Portal.Pairing.Tombstones.{lacks_downlink, told-rejections, reject_flow_setup-told}
use nowhere.Portal.Pairing.Beside.{
  with_pending-Aside, clear_stale_halves-Aside, drop_permit-Aside, take_permit-Aside,
  reject_downlink-Aside, register_tcp_link-Aside, install_quic_link-Aside, unlink-Aside,
}
use nowhere.Portal.Pairing.Buried.{
  follow_claim-rejections, reserve_claim-rejections, abandon_claim-rejections,
  finish_flow-rejections, activate_claim-rejections, place-rejections, Buried,
  terminal_rejection-Buried, take_pending-Buried,
}
use nowhere.Portal.Pairing.Steps.{
  Step, clears_stale, follows, looks_up, reserves, places, activates, abandons, finishes,
  takes_permit, drops_permit, writes, rejects, removes, cancels, cancels_generation, cancels_claims,
  clears_pending, clears_rejections, retains, links_tcp, links_quic, replaces_token, unlinks,
}

module _ {U D L : Type 0} (key : FlowKey) (tombstone : TerminalRejection) where
  cancelled_generation :
      (session_id generation : ℕ) (r : Registry U D L)
      → Buried key tombstone r
      → Buried key tombstone (cancel_active_quic_generation session_id generation r)
  unfolding cancel_active_quic_generation
  cancelled_generation session_id generation r buried = buried

  Buried-terminal_rejection :
      (consume : Bool) (now : ℕ) (r : Registry U D L)
      → now + 1 ≤ tombstone.expires_at
      → Buried key tombstone r
      → (terminal_rejection key consume now r).0 ≡ some tombstone.code
  unfolding terminal_rejection
  Buried-terminal_rejection consume now r soon buried =
      let there : get same_flow key
            (keep (λ k rejection. ltb now rejection.expires_at) r.rejections)
          ≡ some tombstone =
        get-keep same_flow same_flow_eq key tombstone (λ k rejection. ltb now rejection.expires_at)
          r.rejections buried (ground (arith, soon)) in
      rw (terminal_rejection, there) refl

module _ {U D L : Type 0} (Up : FlowKey → Metadata → Target → U → Type 0)
    (Down : FlowKey → Metadata → D → Type 0) (key : FlowKey) (expires_at : ℕ) where
  -- All steps but the end of the registry, what happens at the time-out or behind it, a look-up
  -- that consumes the tombstone of the flow, another rejection of the flow, and a rejection where
  -- the tombstones are as many as they may be.
  abbrev pub Leaves : (r s : Registry U D L) → Step Up Down r s → Type 0
  Leaves _ _ (looks_up k consume now r) =
      (now + 1 ≤ expires_at) × ((consume && same_flow k key) ≡ false)
  Leaves _ _ (rejects k code now r idle) =
      (now + 1 ≤ expires_at) × (same_flow k key ≡ false) × (length r.rejections < r.max_pending)
  Leaves _ _ (clears_rejections r) = ⊥
  Leaves _ _ _ = Unit {0}

  -- The registries that such steps lead to.
  pub data Until (start : Registry U D L) : Registry U D L → Type 0 where
    straight : Until start start
    further :
        (r s : Registry U D L)
        → Until start r
        → (step : Step Up Down r s) → Leaves r s step
        → Until start s

module _ {U D L : Type 0} (Up : FlowKey → Metadata → Target → U → Type 0)
    (Down : FlowKey → Metadata → D → Type 0) (key : FlowKey) where
  Step-Buried :
      (tombstone : TerminalRejection) (r s : Registry U D L) (step : Step Up Down r s)
      → Leaves Up Down key tombstone.expires_at r s step
      → Buried key tombstone r
      → Buried key tombstone s
  Step-Buried tombstone _ _ (clears_stale kind k active r) leaves buried =
      ap (get same_flow key) ((clear_stale_halves-Aside kind k active r).rejections) ∙ buried
  Step-Buried tombstone _ _ (follows k p gone r) leaves buried =
      ap (get same_flow key) (follow_claim-rejections k p gone r) ∙ buried
  Step-Buried tombstone _ _ (looks_up k consume now r) leaves buried =
      terminal_rejection-Buried key k tombstone consume now r leaves.0 leaves.1 buried
  Step-Buried tombstone _ _ (reserves k metadata target generation r) leaves buried =
      ap (get same_flow key) (reserve_claim-rejections k metadata target generation r) ∙ buried
  Step-Buried tombstone _ _
        (places kind k role metadata target link half permit epoch r fits brings) leaves buried =
      ap (get same_flow key) (place-rejections kind k role metadata target link half permit epoch r)
      ∙ buried
  Step-Buried tombstone _ _ (activates k epoch gs permit r) leaves buried =
      ap (get same_flow key) (activate_claim-rejections k epoch gs permit r) ∙ buried
  Step-Buried tombstone _ _ (abandons k epoch r) leaves buried =
      ap (get same_flow key) (abandon_claim-rejections k epoch r) ∙ buried
  Step-Buried tombstone _ _ (finishes k epoch r) leaves buried =
      ap (get same_flow key) (finish_flow-rejections k epoch r) ∙ buried
  Step-Buried tombstone _ _ (takes_permit semaphore r) leaves buried =
      ap (get same_flow key) ((take_permit-Aside semaphore r).rejections) ∙ buried
  Step-Buried tombstone _ _ (drops_permit permit r) leaves buried =
      ap (get same_flow key) ((drop_permit-Aside permit r).rejections) ∙ buried
  Step-Buried tombstone _ _ (writes downlink code r) leaves buried =
      ap (get same_flow key) ((reject_downlink-Aside downlink code r).rejections) ∙ buried
  Step-Buried tombstone _ _ (rejects k code now r idle) leaves buried =
      take_pending-Buried key k tombstone code now r leaves.0 leaves.1 leaves.2 buried
  Step-Buried tombstone _ _ (removes kind k r) leaves buried =
      ap (get same_flow key) ((with_pending-Aside kind _ r).rejections) ∙ buried
  Step-Buried tombstone _ _ (cancels t r) leaves buried = buried
  Step-Buried tombstone _ _ (cancels_generation session_id generation r) leaves buried =
      cancelled_generation key tombstone session_id generation r buried
  Step-Buried tombstone _ _ (cancels_claims r) leaves buried = buried
  Step-Buried tombstone _ _ (clears_pending kind r) leaves buried =
      ap (get same_flow key) ((with_pending-Aside kind _ r).rejections) ∙ buried
  Step-Buried tombstone _ _ (clears_rejections r) leaves buried = elim leaves [ ]
  Step-Buried tombstone _ _ (retains r) leaves buried = buried
  Step-Buried tombstone _ _ (links_tcp session_id stats r) leaves buried =
      ap (get same_flow key) ((register_tcp_link-Aside session_id stats r).rejections) ∙ buried
  Step-Buried tombstone _ _ (links_quic session_id stats r) leaves buried =
      ap (get same_flow key) ((install_quic_link-Aside session_id stats r).rejections) ∙ buried
  Step-Buried tombstone _ _ (replaces_token generation r) leaves buried = buried
  Step-Buried tombstone _ _ (unlinks session_id carrier counts stats r) leaves buried =
      ap (get same_flow key) ((unlink-Aside session_id carrier counts stats r).rejections) ∙ buried

  Until-Buried :
      (tombstone : TerminalRejection) (r s : Registry U D L)
      → Until Up Down key tombstone.expires_at r s
      → Buried key tombstone r
      → Buried key tombstone s
  Until-Buried tombstone _ _ straight buried = buried
  Until-Buried tombstone start _ (further r s before step leaves) buried =
      Step-Buried tombstone r s step leaves (Until-Buried tombstone start r before buried)

  -- Let a flow that has no lease and no downlink be rejected, and let any steps of any tasks follow
  -- before the time-out, but no look-up that consumes the flow's tombstone, no other rejection of
  -- the flow, no rejection where the tombstones are as many as they may be, and no clearing of the
  -- tombstones. Then terminal_rejection gives the code of the rejection until the time-out, whether
  -- it consumes the tombstone or not.
  pub reject_flow_setup-terminal_rejection :
      (code : FlowErrorCode) (now later : ℕ) (consume : Bool) (r s : Registry U D L)
      → is_active key r ≡ false
      → lacks_downlink key r ≡ true
      → Until Up Down key
          (now + r.timeout)
          (reject_flow_setup key.session_id key.flow_id code now r)
          s
      → later + 1 ≤ now + r.timeout
      → (terminal_rejection key consume later s).0 ≡ some code
  unfolding take_pending add_tombstone
  reject_flow_setup-terminal_rejection code now later consume r s idle lacks until soon =
      let live = keep (λ k rejection. ltb now rejection.expires_at) r.rejections in
      let tombstone : TerminalRejection = record { code = code; expires_at = now + r.timeout } in
      let told_same = told-rejections key code r (take_pending key code now r) in
      let made : (take_pending key code now r).rejections
          ≡ put same_flow key tombstone (make_tombstone_room key r.max_pending live) =
        rw (take_pending, lacks) refl in
      let first : Buried key tombstone (reject_flow_setup key.session_id key.flow_id code now r) =
        rw (reject_flow_setup-told key code now r idle)
          (ap (get same_flow key) (told_same.0 ∙ made) ∙ rw (same_flow_refl key) refl) in
      Buried-terminal_rejection key tombstone consume later s soon
        (Until-Buried tombstone _ s until first)
