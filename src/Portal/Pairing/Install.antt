-- ===== src/Portal/Pairing/Install.antt =====
-- src/portal/pairing.rs: the block `'install` of `submit_tcp` and of `submit_udp`, which runs under
-- the locks of the pending flows and of the links. A permit that is not taken over is dropped at
-- the end of the source's function; here it goes back where the block is left.
use nowhere.Common.{
  ℕ, List, ◌++◌, Bool, true, false, not, ◌&&◌, ◌||◌, if◌then◌else◌, Option, none, some, ok, err,
}
use nowhere.Common.Map.{get, remove, put}
use nowhere.Protocol.Flow.{FlowRole, FlowKind, tcp, udp, quic, same_carrier}
use nowhere.Protocol.Setup.{FlowErrorCode}
use nowhere.Protocol.Target.{Target}
use nowhere.Portal.Pairing.{
  FlowKey, same_flow, Metadata, same_metadata, same_generation, LinkHalf, Pending, Registry,
}
use nowhere.Portal.Pairing.Arms.{is_open, is_attach, Half, filled, taken, no_arm, fill}
use nowhere.Portal.Pairing.Claims.{
  is_some, to_list, or_target, active_quic_generation, validate_current_link, reserve_claim,
  refresh_claim, abandon_claim, drop_permit,
}
use nowhere.Portal.Pairing.Reject.{pending_of, with_pending, terminal_rejection}

-- `TcpInstallOutcome` and `UdpInstallOutcome`; `completed` is a pair that is still to be activated,
-- and `unreachable` the panic of `unreachable!()`.
pub data InstallOutcome (U D L : Type 0) : Type 0 where
  waiting : ℕ → InstallOutcome U D L
  completed : Pending U D L → InstallOutcome U D L
  refused : FlowErrorCode → Option D → Bool → InstallOutcome U D L
  unreachable : InstallOutcome U D L

module _ {U D L : Type 0} where
  abbrev pub uplink_is_stale : Option ℕ → Pending U D L → Bool
  uplink_is_stale active p =
      same_carrier p.metadata.uplink quic && not (same_generation p.uplink_generation active)

  abbrev pub downlink_is_stale : Option ℕ → Pending U D L → Bool
  downlink_is_stale active p =
      same_carrier p.metadata.downlink quic && not (same_generation p.downlink_generation active)

  abbrev pub clear_uplink : Option ℕ → Pending U D L → Pending U D L
  clear_uplink active p =
      if uplink_is_stale active p
      then (record p {
        uplink = none;
        target = none;
        flow_permit = none;
        uplink_path = none;
        uplink_generation = none;
      })
      else p

  abbrev pub clear_downlink : Option ℕ → Pending U D L → Pending U D L
  clear_downlink active p =
      if downlink_is_stale active p
      then (record p {
        downlink = none;
        downlink_liveness = none;
        downlink_path = none;
        downlink_generation = none;
      })
      else p

  abbrev pub clear_stale : Option ℕ → Pending U D L → Pending U D L
  clear_stale active p = clear_downlink active (clear_uplink active p)

  abbrev pub generations_of : Pending U D L → List ℕ
  generations_of p = to_list p.uplink_generation ++ to_list p.downlink_generation

  -- The claim of a flow that lost its last half goes, and that of one that lost a half follows it.
  abbrev pub follow_claim : FlowKey → Pending U D L → Bool → Registry U D L → Registry U D L
  follow_claim key p gone r = elim (get same_flow key r.claims) [
    | none ↦ r
    | some claim ↦
        if claim.active
        then r
        else if gone
        then record r { claims = remove same_flow key r.claims }
        else (let claim' = record claim {
          target = p.target;
          quic_generations = generations_of p;
        } in
            record r { claims = put same_flow key claim' r.claims })
  ]

  abbrev pub lost_both : Pending U D L → Bool
  lost_both p = not (is_some p.uplink) && not (is_some p.downlink)

  -- The pending flow without its stale halves goes where both are gone, and waits on otherwise.
  abbrev pub keep_pending : FlowKind → FlowKey → Pending U D L → Registry U D L → Registry U D L
  keep_pending kind key p r =
      if lost_both p
      then with_pending kind (remove same_flow key (pending_of kind r)) r
      else with_pending kind (put same_flow key p (pending_of kind r)) r

  -- The part on the map of the pending flows.
  unfoldable pub clear_stale_halves :
      FlowKind → FlowKey → Option ℕ → Registry U D L → Registry U D L
  clear_stale_halves kind key active r = elim (get same_flow key (pending_of kind r)) [
    | none ↦ r
    | some pending ↦ keep_pending kind key (clear_stale active pending) r
  ]

  unfoldable pub drop_stale : FlowKind → FlowKey → Option ℕ → Registry U D L → Registry U D L
  drop_stale kind key active r = elim (get same_flow key (pending_of kind r)) [
    | none ↦ r
    | some pending ↦
        let p = clear_stale active pending in
        let freed =
          if lost_both p || not (is_some p.flow_permit) then pending.flow_permit else none in
        drop_permit freed (follow_claim key p (lost_both p) (clear_stale_halves kind key active r))
  ]

  abbrev pub new_pending : ℕ → Metadata → Option ℕ → Option Target → Pending U D L
  new_pending epoch metadata active target = record {
    epoch = epoch;
    metadata = metadata;
    quic_snapshot = active;
    target = target;
    uplink = none;
    downlink = none;
    downlink_liveness = none;
    flow_permit = none;
    uplink_path = none;
    downlink_path = none;
    uplink_generation = none;
    downlink_generation = none;
  }

  -- `entry(key).or_insert_with(...)`
  abbrev pub entry_or : Pending U D L → Option (Pending U D L) → Pending U D L
  entry_or new none = new
  entry_or new (some p) = p

  -- A UDP pair that is complete has a permit.
  abbrev pub lacks_permit : FlowKind → Pending U D L → Bool
  lacks_permit tcp p = false
  lacks_permit udp p = not (is_some p.flow_permit)

  -- Both halves are there: the pair leaves the map. Otherwise the flow waits with a new epoch.
  unfoldable pub settle :
      FlowKind → FlowKey → Pending U D L → Registry U D L → Registry U D L × InstallOutcome U D L
  settle kind key p r =
      if is_some p.uplink && is_some p.downlink
      then (let r' = with_pending kind (remove same_flow key (pending_of kind r)) r in
          if lacks_permit kind p
          then (abandon_claim key p.epoch r', refused FlowErrorCode.internal_error p.downlink false)
          else (r', completed p))
      else (let (refreshed, r') = refresh_claim key r in
          elim refreshed [
            | ok epoch ↦ (
              with_pending kind
                  (put same_flow key (record p { epoch = epoch }) (pending_of kind r')) r',
              waiting epoch,
            )
            | err code ↦ (
              drop_permit p.flow_permit
                  (with_pending kind (remove same_flow key (pending_of kind r')) r'),
              refused code p.downlink true,
            )
          ])

  -- The half meets the flow that waits, or the new one.
  unfoldable pub meet :
      FlowKind
      → FlowKey
      → FlowRole
      → Metadata
      → Option Target
      → LinkHalf
      → Half U D L
      → Option ℕ
      → Pending U D L
      → Registry U D L
      → Registry U D L × InstallOutcome U D L
  meet kind key role metadata target link half permit found r =
      let kept : Pending U D L → Registry U D L =
        λ p. drop_permit permit (with_pending kind (put same_flow key p (pending_of kind r)) r) in
      if not (same_metadata found.metadata metadata)
      then (kept found, refused FlowErrorCode.metadata_conflict half.writer true)
      else (let p = record found { target = or_target found.target target } in
          elim (fill kind role link half permit p) [
            | taken downlink ↦ (kept p, refused FlowErrorCode.metadata_conflict downlink true)
            | filled p' ↦ settle kind key p' r
            | no_arm ↦ (kept p, unreachable)
          ])

  -- The block behind `reserve_claim`, which gave the epoch of the claim.
  unfoldable pub place :
      FlowKind
      → FlowKey
      → FlowRole
      → Metadata
      → Option Target
      → LinkHalf
      → Half U D L
      → Option ℕ
      → ℕ
      → Registry U D L
      → Registry U D L × InstallOutcome U D L
  place kind key role metadata target link half permit epoch r =
      let new = new_pending epoch metadata (active_quic_generation key.session_id r) target in
      meet kind key role metadata target link half permit
        (entry_or new (get same_flow key (pending_of kind r))) r

  unfoldable pub install :
      FlowKind
      → FlowKey
      → FlowRole
      → Metadata
      → Option Target
      → LinkHalf
      → Half U D L
      → Option ℕ
      → ℕ
      → Registry U D L
      → Registry U D L × InstallOutcome U D L
  install kind key role metadata target link half permit now r =
      elim (validate_current_link key.session_id link r) [
        | err code ↦ (drop_permit permit r, refused code half.writer (is_open role))
        | ok _ ↦
            let current = drop_stale kind key (active_quic_generation key.session_id r) r in
            let (tombstone, r') = terminal_rejection key (is_attach role) now current in
            elim tombstone [
              | some code ↦ (drop_permit permit r', refused code half.writer false)
              | none ↦
                  let (reserved, r'') = reserve_claim key metadata target link.quic_generation r' in
                  elim reserved [
                    | err code ↦ (drop_permit permit r'', refused code half.writer true)
                    | ok (epoch, created) ↦
                        place kind key role metadata target link half permit epoch r''
                  ]
            ]
      ]
