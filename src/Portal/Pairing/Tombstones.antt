-- ===== src/Portal/Pairing/Tombstones.antt =====
-- src/portal/pairing.rs: how many tombstones there are, and who reads them.
use nowhere.Common.{
  ℕ, ◌≡◌, ◌≤◌, refl, ◌∙◌, Bool, false, not, ltb, ◌&&◌, Option, none, some, Bool-cases, Option-cases,
  inl, inr, arith, length,
}
use nowhere.Common.Map.{get, remove, keep}
use nowhere.Protocol.Setup.{FlowErrorCode}
use nowhere.Portal.Pairing.{FlowKey, same_flow, Registry}
use nowhere.Portal.Pairing.Claims.{same_number, is_some, drop_permit}
use nowhere.Portal.Pairing.Reject.{
  terminal_rejection, is_active, downlink_of, permit_of, reject_downlink, add_tombstone,
  take_pending, reject_flow_setup,
}
use nowhere.Portal.Pairing.TombstoneRoom.{length-remove, room-length, length-keep}

module _ {U D L : Type 0} where
  -- There are no more tombstones than pending flows may be.
  abbrev pub Bounded : Registry U D L → Type 0
  Bounded r = (1 ≤ r.max_pending) × (length r.rejections ≤ r.max_pending)

  add_tombstone-Bounded :
      (key : FlowKey) (code : FlowErrorCode) (now : ℕ) (r : Registry U D L)
      → Bounded r
      → Bounded (add_tombstone key code now r)
  unfolding add_tombstone
  add_tombstone-Bounded key code now r bounded =
      let live = keep (λ k rejection. ltb now rejection.expires_at) r.rejections in
      let less = length-keep (λ k rejection. ltb now rejection.expires_at) r.rejections in
      let most = bounded.1 in
      let room = room-length key r.max_pending live bounded.0 (omega (arith, less, most)) in
      (bounded.0, omega (arith, room))

  pub terminal_rejection-Bounded :
      (key : FlowKey) (consume : Bool) (now : ℕ) (r : Registry U D L)
      → Bounded r
      → Bounded (terminal_rejection key consume now r).1
  unfolding terminal_rejection
  terminal_rejection-Bounded key consume now r bounded =
      let live = keep (λ k rejection. ltb now rejection.expires_at) r.rejections in
      let less = length-keep (λ k rejection. ltb now rejection.expires_at) r.rejections in
      let fewer = length-remove key live in
      let most = bounded.1 in
      elim (Bool-cases consume) [
        | inl h ↦ rw (terminal_rejection, h) (bounded.0, omega (arith, less, fewer, most))
        | inr h ↦ rw (terminal_rejection, h) (bounded.0, omega (arith, less, most))
      ]

  drop_permit-rejections :
      (permit : Option ℕ) (r : Registry U D L)
      → ((drop_permit permit r).rejections ≡ r.rejections)
        × ((drop_permit permit r).max_pending ≡ r.max_pending)
  unfolding drop_permit
  drop_permit-rejections none r = (refl, refl)
  drop_permit-rejections (some semaphore) r =
      elim (Option-cases (get same_number semaphore r.permits)) [
        | inl e ↦ rw (drop_permit, e) (refl, refl)
        | inr (left, e) ↦ rw (drop_permit, e) (refl, refl)
      ]

  reject_downlink-rejections :
      (downlink : Option D) (code : FlowErrorCode) (r : Registry U D L)
      → ((reject_downlink downlink code r).rejections ≡ r.rejections)
        × ((reject_downlink downlink code r).max_pending ≡ r.max_pending)
  unfolding reject_downlink
  reject_downlink-rejections none code r = (refl, refl)
  reject_downlink-rejections (some d) code r = (refl, refl)

  take_pending-Bounded :
      (key : FlowKey) (code : FlowErrorCode) (now : ℕ) (r : Registry U D L)
      → Bounded r
      → Bounded (take_pending key code now r)
  unfolding take_pending
  take_pending-Bounded key code now r bounded =
      let cleared : Registry U D L = record r {
        tcp = remove same_flow key r.tcp;
        udp = remove same_flow key r.udp;
        claims = remove same_flow key r.claims;
      } in
      elim (Bool-cases (
        not (is_some (downlink_of (get same_flow key r.tcp)))
        && not (is_some (downlink_of (get same_flow key r.udp))))) [
          | inl h ↦ rw (take_pending, h) (add_tombstone-Bounded key code now cleared bounded)
          | inr h ↦ rw (take_pending, h) bounded
        ]

  -- What is told to the downlinks that wait.
  abbrev pub told : FlowKey → FlowErrorCode → Registry U D L → Registry U D L → Registry U D L
  told key code r taken = reject_downlink (downlink_of (get same_flow key r.udp)) code (
      reject_downlink (downlink_of (get same_flow key r.tcp)) code
        (drop_permit (permit_of (get same_flow key r.udp)) taken))

  pub told-rejections :
      (key : FlowKey) (code : FlowErrorCode) (r taken : Registry U D L)
      → ((told key code r taken).rejections ≡ taken.rejections)
        × ((told key code r taken).max_pending ≡ taken.max_pending)
  told-rejections key code r taken =
      let freed = drop_permit (permit_of (get same_flow key r.udp)) taken in
      let first = reject_downlink (downlink_of (get same_flow key r.tcp)) code freed in
      let a = reject_downlink-rejections (downlink_of (get same_flow key r.udp)) code first in
      let b = reject_downlink-rejections (downlink_of (get same_flow key r.tcp)) code freed in
      let c = drop_permit-rejections (permit_of (get same_flow key r.udp)) taken in
      (a.0 ∙ b.0 ∙ c.0, a.1 ∙ b.1 ∙ c.1)

  -- Where at least one flow may be pending and the tombstones are at most as many as pending flows
  -- may be, both are so behind reject_flow_setup.
  pub reject_flow_setup-Bounded :
      (session_id flow_id : ℕ) (code : FlowErrorCode) (now : ℕ) (r : Registry U D L)
      → Bounded r
      → Bounded (reject_flow_setup session_id flow_id code now r)
  unfolding reject_flow_setup
  reject_flow_setup-Bounded session_id flow_id code now r bounded =
      let key : FlowKey = record { session_id = session_id; flow_id = flow_id } in
      let taken = take_pending key code now r in
      let same = told-rejections key code r taken in
      let all : Bounded (told key code r taken) =
        rw (same.0, same.1) (take_pending-Bounded key code now r bounded) in
      elim (Bool-cases (is_active key r)) [
        | inl h ↦ rw (reject_flow_setup, h) bounded
        | inr h ↦ rw (reject_flow_setup, h) all
      ]

  -- No downlink of the flow waits.
  abbrev pub lacks_downlink : FlowKey → Registry U D L → Bool
  lacks_downlink key r =
      not (is_some (downlink_of (get same_flow key r.tcp)))
      && not (is_some (downlink_of (get same_flow key r.udp)))

  pub reject_flow_setup-told :
      (key : FlowKey) (code : FlowErrorCode) (now : ℕ) (r : Registry U D L)
      → is_active key r ≡ false
      → reject_flow_setup key.session_id key.flow_id code now r
        ≡ told key code r (take_pending key code now r)
  unfolding reject_flow_setup
  reject_flow_setup-told key code now r idle = rw (reject_flow_setup, idle) refl
