-- ===== src/Portal/Pairing/Reject.antt =====
-- src/portal/pairing.rs: the tombstones of flows that were rejected, and `reject_flow_setup`.
use nowhere.Common.{
  ℕ, ◌+◌, List, [], ◌∷◌, ◌++◌, Bool, false, not, ltb, leb, ◌&&◌, if◌then◌else◌, Option, none, some,
  length,
}
use nowhere.Common.Map.{get, remove, put, keep}
use nowhere.Protocol.Flow.{FlowKind, tcp, udp}
use nowhere.Protocol.Setup.{FlowErrorCode}
use nowhere.Portal.Pairing.{FlowKey, same_flow, TerminalRejection, Pending, Registry}
use nowhere.Portal.Pairing.Claims.{is_some, drop_permit}

-- The first entry among those that expire first.
abbrev pub first_to_expire :
    FlowKey × TerminalRejection → List (FlowKey × TerminalRejection) → FlowKey × TerminalRejection
first_to_expire best [] = best
first_to_expire best (e ∷ m) =
    first_to_expire (if ltb e.1.expires_at best.1.expires_at then e else best) m

-- Where the tombstones are as many as they may be, one makes room for a new key.
abbrev pub make_tombstone_room :
    FlowKey → ℕ → List (FlowKey × TerminalRejection) → List (FlowKey × TerminalRejection)
make_tombstone_room k limit [] = []
make_tombstone_room k limit (e ∷ m) =
    if not (is_some (get same_flow k (e ∷ m))) && leb limit (length (e ∷ m))
    then remove same_flow (first_to_expire e m).0 (e ∷ m)
    else e ∷ m

module _ {U D L : Type 0} where
  unfoldable pub terminal_rejection :
      FlowKey → Bool → ℕ → Registry U D L → Option FlowErrorCode × Registry U D L
  terminal_rejection key consume now r =
      let rejections = keep (λ k rejection. ltb now rejection.expires_at) r.rejections in
      let found : Option FlowErrorCode = elim (get same_flow key rejections) [
        | none ↦ none
        | some rejection ↦ some rejection.code
      ] in
      (
        found,
        record r { rejections = if consume then remove same_flow key rejections else rejections },
      )

  -- The map of the pending flows of a kind.
  abbrev pub pending_of : FlowKind → Registry U D L → List (FlowKey × Pending U D L)
  pending_of tcp r = r.tcp
  pending_of udp r = r.udp

  abbrev pub with_pending :
      FlowKind → List (FlowKey × Pending U D L) → Registry U D L → Registry U D L
  with_pending tcp m r = record r { tcp = m }
  with_pending udp m r = record r { udp = m }

  -- The downlink and the permit of a pending flow that is taken out, where there is one.
  abbrev pub downlink_of : Option (Pending U D L) → Option D
  downlink_of none = none
  downlink_of (some pending) = pending.downlink

  abbrev pub permit_of : Option (Pending U D L) → Option ℕ
  permit_of none = none
  permit_of (some pending) = pending.flow_permit

  -- `reject_tcp_writer` and `reject_udp_downlink_ref`: the outcome is written on the downlink, if
  -- there is one.
  unfoldable pub reject_downlink : Option D → FlowErrorCode → Registry U D L → Registry U D L
  reject_downlink none code r = r
  reject_downlink (some downlink) code r = record r {
    rejected = r.rejected ++ ((downlink, code) ∷ []);
  }

  -- The tombstone of a flow whose downlink is not there yet. The two reads of the clock are one.
  unfoldable pub add_tombstone : FlowKey → FlowErrorCode → ℕ → Registry U D L → Registry U D L
  add_tombstone key code now r =
      let live = keep (λ k rejection. ltb now rejection.expires_at) r.rejections in
      let tombstone : TerminalRejection = record { code = code; expires_at = now + r.timeout } in
      record r {
        rejections = put same_flow key tombstone (make_tombstone_room key r.max_pending live);
      }

  -- The part of `reject_flow_setup` under its locks, for a flow that is not active. What goes with
  -- the pending flows gives back its permit.
  unfoldable pub take_pending : FlowKey → FlowErrorCode → ℕ → Registry U D L → Registry U D L
  take_pending key code now r =
      let tcp_flow = get same_flow key r.tcp in
      let udp_flow = get same_flow key r.udp in
      let cleared = record r {
        tcp = remove same_flow key r.tcp;
        udp = remove same_flow key r.udp;
        claims = remove same_flow key r.claims;
      } in
      if not (is_some (downlink_of tcp_flow)) && not (is_some (downlink_of udp_flow))
      then add_tombstone key code now cleared
      else cleared

  -- The flow has its lease.
  abbrev pub is_active : FlowKey → Registry U D L → Bool
  is_active key r = elim (get same_flow key r.claims) [ none ↦ false | some claim ↦ claim.active ]

  unfoldable pub reject_flow_setup : ℕ → ℕ → FlowErrorCode → ℕ → Registry U D L → Registry U D L
  reject_flow_setup session_id flow_id code now r =
      let key : FlowKey = record { session_id = session_id; flow_id = flow_id } in
      let tcp_flow = get same_flow key r.tcp in
      let udp_flow = get same_flow key r.udp in
      if is_active key r
      then r
      else (reject_downlink (downlink_of udp_flow) code (
          reject_downlink (downlink_of tcp_flow) code
            (drop_permit (permit_of udp_flow) (take_pending key code now r))))
