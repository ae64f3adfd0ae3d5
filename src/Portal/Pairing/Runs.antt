-- ===== src/Portal/Pairing/Runs.antt =====
-- src/portal/pairing.rs: the operations but for the submissions as runs of the steps of their
-- parts.
use nowhere.Common.{ℕ, List, [], ◌∷◌, not, ◌&&◌, Bool-cases, Option-cases, inl, inr}
use nowhere.Common.Map.{get}
use nowhere.Protocol.Flow.{FlowKind, tcp, udp}
use nowhere.Protocol.Setup.{FlowErrorCode}
use nowhere.Protocol.Target.{Target}
use nowhere.Portal.Pairing.{FlowKey, same_flow, Metadata, FlowLease, Pending, Registry}
use nowhere.Portal.Pairing.Claims.{
  is_some, drop_permit, acquire_udp_permit, finish_flow, same_number,
}
use nowhere.Portal.Pairing.Reject.{
  is_active, permit_of, downlink_of, take_pending, reject_downlink, reject_flow_setup,
}
use nowhere.Portal.Pairing.Cancel.{
  expired, remove_pending, time_out, cancel_udp, drop_lease, cancel_active_quic_generation,
  reject_all, snapshot_keys, extend_keys, purge_quic_generation, replace_quic_generation,
  drop_permits, drain_pending, clear_pending, clear_rejections, cancel_claims, cancel_all,
}
use nowhere.Portal.Pairing.Steps.{
  Reach, more, takes_permit, drops_permit, writes, rejects, removes, abandons, finishes, cancels,
  cancels_generation, cancels_claims, clears_pending, clears_rejections, retains,
}

module _ {U D L : Type 0} (Up : FlowKey → Metadata → Target → U → Type 0)
    (Down : FlowKey → Metadata → D → Type 0) (start : Registry U D L) where
  abbrev pub Reached : Registry U D L → Type 0
  Reached = Reach Up Down start

  pub reject_flow_setup-Reach :
      (session_id flow_id : ℕ) (code : FlowErrorCode) (now : ℕ) (r : Registry U D L)
      → Reached r
      → Reached (reject_flow_setup session_id flow_id code now r)
  unfolding reject_flow_setup
  reject_flow_setup-Reach session_id flow_id code now r reach =
      let key : FlowKey = record { session_id = session_id; flow_id = flow_id } in
      let permit = permit_of (get same_flow key r.udp) in
      let taken = take_pending key code now r in
      let freed = drop_permit permit taken in
      let told = reject_downlink (downlink_of (get same_flow key r.tcp)) code freed in
      elim (Bool-cases (is_active key r)) [
        | inl h ↦ rw (reject_flow_setup, h) reach
        | inr h ↦
            rw (reject_flow_setup, h)
              (more told _
                (more freed told
                  (more taken freed (more r taken reach (rejects key code now r h))
                    (drops_permit permit taken))
                  (writes (downlink_of (get same_flow key r.tcp)) code freed))
                (writes (downlink_of (get same_flow key r.udp)) code told))
      ]

  pub time_out-Reach :
      (kind : FlowKind) (key : FlowKey) (epoch now : ℕ) (r : Registry U D L)
      → Reached r
      → Reached (time_out kind key epoch now r)
  unfolding time_out
  time_out-Reach kind key epoch now r reach = elim (Option-cases (expired kind key epoch r)) [
    | inl e ↦ rw (time_out, e) reach
    | inr (p, e) ↦
        let removed = remove_pending kind key r in
        let freed = drop_permit p.flow_permit removed in
        let told = reject_downlink p.downlink FlowErrorCode.pair_timeout freed in
        let taken : Reached freed =
          more removed freed (more r removed reach (removes kind key r))
            (drops_permit p.flow_permit removed) in
        elim (Bool-cases (is_some p.uplink && not (is_some p.downlink))) [
          | inl one ↦
              rw (time_out, e, one)
                (reject_flow_setup-Reach key.session_id key.flow_id FlowErrorCode.pair_timeout now
                  freed taken)
          | inr one ↦
              rw (time_out, e, one)
                (more told _
                  (more freed told taken (writes p.downlink FlowErrorCode.pair_timeout freed))
                  (abandons key epoch told))
        ]
  ]

  pub cancel_udp-Reach :
      (session_id flow_id : ℕ) (r : Registry U D L)
      → Reached r
      → Reached (cancel_udp session_id flow_id r)
  unfolding cancel_udp
  cancel_udp-Reach session_id flow_id r reach =
      let key : FlowKey = record { session_id = session_id; flow_id = flow_id } in
      let permit = permit_of (get same_flow key r.udp) in
      let removed = remove_pending udp key r in
      let freed = drop_permit permit removed in
      let taken : Reached freed =
        more removed freed (more r removed reach (removes udp key r))
          (drops_permit permit removed) in
      elim (Option-cases (get same_flow key freed.claims)) [
        | inl e ↦ rw (cancel_udp, e) taken
        | inr (claim, e) ↦ elim (Bool-cases claim.active) [
          | inl h ↦ rw (cancel_udp, e, h) (more freed _ taken (cancels claim.cancel freed))
          | inr h ↦ rw (cancel_udp, e, h) (more freed _ taken (abandons key claim.epoch freed))
        ]
      ]

  pub drop_lease-Reach :
      (lease : FlowLease) (r : Registry U D L) → Reached r → Reached (drop_lease lease r)
  unfolding drop_lease
  drop_lease-Reach lease r reach =
      let finished = finish_flow lease.key lease.epoch r in
      more finished _ (more r finished reach (finishes lease.key lease.epoch r))
        (drops_permit lease.udp_permit finished)

  reject_all-Reach :
      (keys : List FlowKey) (code : FlowErrorCode) (now : ℕ) (r : Registry U D L)
      → Reached r
      → Reached (reject_all keys code now r)
  reject_all-Reach [] code now r reach = reach
  reject_all-Reach (k ∷ keys) code now r reach =
      reject_all-Reach keys code now (reject_flow_setup k.session_id k.flow_id code now r)
        (reject_flow_setup-Reach k.session_id k.flow_id code now r reach)

  pub replace_quic_generation-Reach :
      (session_id generation now : ℕ) (r : Registry U D L)
      → Reached r
      → Reached (replace_quic_generation session_id generation now r)
  unfolding replace_quic_generation purge_quic_generation
  replace_quic_generation-Reach session_id generation now r reach =
      let r' = cancel_active_quic_generation session_id generation r in
      reject_all-Reach
        (extend_keys (snapshot_keys session_id generation r'.tcp)
          (snapshot_keys session_id generation r'.udp))
        FlowErrorCode.session_replaced now r'
        (more r r' reach (cancels_generation session_id generation r))

  drop_permits-Reach :
      (m : List (FlowKey × Pending U D L)) (r : Registry U D L)
      → Reached r
      → Reached (drop_permits m r)
  drop_permits-Reach [] r reach = reach
  drop_permits-Reach ((k, p) ∷ m) r reach =
      drop_permits-Reach m (drop_permit p.flow_permit r)
        (more r _ reach (drops_permit p.flow_permit r))

  pub cancel_all-Reach : (r : Registry U D L) → Reached r → Reached (cancel_all r)
  unfolding cancel_all drain_pending
  cancel_all-Reach r reach =
      let ended = cancel_claims r in
      let no_tcp = clear_pending tcp ended in
      let no_udp = clear_pending udp no_tcp in
      let freed = drop_permits no_tcp.udp no_udp in
      let none_told = clear_rejections freed in
      more none_told _
        (more freed none_told
          (drop_permits-Reach no_tcp.udp no_udp (
            more no_tcp no_udp
              (more ended no_tcp (more r ended reach (cancels_claims r)) (clears_pending tcp ended))
              (clears_pending udp no_tcp)))
          (clears_rejections freed))
        (retains none_told)

  pub acquire_udp_permit-Reach :
      (session_id : ℕ) (r : Registry U D L)
      → Reached r
      → Reached (acquire_udp_permit session_id r).1
  unfolding acquire_udp_permit
  acquire_udp_permit-Reach session_id r reach =
      elim (Option-cases (get same_number session_id r.links)) [
        | inl e ↦ rw (acquire_udp_permit, e) reach
        | inr (counts, e) ↦
            rw (acquire_udp_permit, e) (more r _ reach (takes_permit counts.udp_flow_budget r))
      ]
