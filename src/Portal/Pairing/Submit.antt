-- ===== src/Portal/Pairing/Submit.antt =====
-- src/portal/pairing.rs: `submit_tcp` and `submit_udp`. Between the parts that hold a lock other
-- operations can run; here each function runs to its end, and `Step` of Portal/Pairing/Steps has
-- the parts as steps of their own.
use nowhere.Common.{ℕ, Bool, true, not, ◌&&◌, if◌then◌else◌, Option, none, some, ok, err}
use nowhere.Protocol.Flow.{FlowRole, duplex, open_half, attach, tcp, udp, FlowHeader}
use nowhere.Protocol.Setup.{FlowErrorCode}
use nowhere.Protocol.Target.{Target}
use nowhere.Portal.Pairing.{FlowKey, Metadata, LinkHalf, FlowLease, Pending, Registry, Paired}
use nowhere.Portal.Pairing.Arms.{is_open, is_attach, Half, is_duplex}
use nowhere.Portal.Pairing.Claims.{
  is_some, to_list, validate_header_and_link, reserve_claim, abandon_claim, activate_claim,
  acquire_udp_permit, drop_permit,
}
use nowhere.Portal.Pairing.Reject.{terminal_rejection, reject_downlink, reject_flow_setup}
use nowhere.Portal.Pairing.Install.{
  InstallOutcome, waiting, completed, refused, unreachable, generations_of, install,
}

-- What a caller gets: the pair, the epoch of a flow that waits for its other half, an error, or the
-- panic of an `expect` or of `unreachable!()`.
pub data Submitted (U D L : Type 0) : Type 0 where
  paired : Paired U D L → Submitted U D L
  pending : ℕ → Submitted U D L
  failed : FlowErrorCode → Submitted U D L
  panicked : Submitted U D L

abbrev pub key_of : ℕ → FlowHeader → FlowKey
key_of session_id header = record { session_id = session_id; flow_id = header.flow_id }

abbrev pub metadata_of : FlowHeader → Metadata
metadata_of header = record {
  kind = header.kind;
  uplink = header.uplink;
  downlink = header.downlink;
}

module _ {U D L : Type 0} where
  -- The shape test of `submit_tcp`.
  abbrev pub tcp_shape : FlowRole → Half U D L → Bool
  tcp_shape open_half half = is_some half.reader
  tcp_shape attach half = is_some half.writer
  tcp_shape duplex half = is_some half.reader && is_some half.writer

  -- The shape test of `submit_udp`, on the parts of a `UdpHalf`.
  abbrev pub udp_shape : FlowRole → Half U D L → Bool
  udp_shape open_half half = is_some half.reader && not (is_some half.writer)
  udp_shape attach half = not (is_some half.reader) && is_some half.writer
  udp_shape duplex half = is_some half.reader && is_some half.writer

  -- A pair of the parts that are there; the `expect`s fail where one is not.
  unfoldable pub paired_of : Pending U D L → FlowLease → Submitted U D L
  paired_of p lease = elim p.target [
    | none ↦ panicked
    | some target ↦ elim p.uplink [
      | none ↦ panicked
      | some uplink ↦ elim p.downlink [
        | none ↦ panicked
        | some downlink ↦ elim p.uplink_path [
          | none ↦ panicked
          | some uplink_path ↦ elim p.downlink_path [
            | none ↦ panicked
            | some downlink_path ↦ paired (record {
              flow_id = lease.key.flow_id;
              target = target;
              uplink = uplink;
              downlink = downlink;
              downlink_liveness = p.downlink_liveness;
              uplink_carrier = p.metadata.uplink;
              downlink_carrier = p.metadata.downlink;
              uplink_path = uplink_path;
              downlink_path = downlink_path;
              flow_lease = lease;
            })
          ]
        ]
      ]
    ]
  ]

  -- A submission that fails before it has a claim.
  unfoldable pub fail_early :
      ℕ
      → FlowHeader
      → Half U D L
      → FlowErrorCode
      → ℕ
      → Registry U D L
      → Registry U D L × Submitted U D L
  fail_early session_id header half code now r =
      let r' =
        if is_open header.role then reject_flow_setup session_id header.flow_id code now r else r in
      (reject_downlink half.writer code r', failed code)

  abbrev pub duplex_pending : FlowHeader → Option Target → LinkHalf → Half U D L → ℕ → Pending U D L
  duplex_pending header target link half epoch = record {
    epoch = epoch;
    metadata = metadata_of header;
    quic_snapshot = none;
    target = target;
    uplink = half.reader;
    downlink = half.writer;
    downlink_liveness = half.liveness;
    flow_permit = none;
    uplink_path = some link.path;
    downlink_path = some link.path;
    uplink_generation = link.quic_generation;
    downlink_generation = link.quic_generation;
  }

  -- A duplex flow, which is a pair from the start, behind the tombstone and the permit.
  unfoldable pub submit_duplex :
      ℕ
      → FlowHeader
      → Option Target
      → LinkHalf
      → Half U D L
      → Option ℕ
      → Registry U D L
      → Registry U D L × Submitted U D L
  submit_duplex session_id header target link half permit r =
      let key = key_of session_id header in
      let fail : FlowErrorCode → Registry U D L → Registry U D L × Submitted U D L =
        λ code s. (drop_permit permit (reject_downlink half.writer code s), failed code) in
      let (reserved, r') = reserve_claim key (metadata_of header) target link.quic_generation r in
      elim reserved [
        | err code ↦ fail code r'
        | ok (epoch, created) ↦
            if not created
            then fail FlowErrorCode.metadata_conflict r'
            else (let (lease, r'') =
                  activate_claim key epoch (to_list link.quic_generation) permit r' in
                elim lease [
                  | err code ↦ fail code (abandon_claim key epoch r'')
                  | ok l ↦ (r'', paired_of (duplex_pending header target link half epoch) l)
                ])
      ]

  -- A pair that `install` completed is activated once its locks are free.
  unfoldable pub activate_pair :
      FlowKey → Pending U D L → Registry U D L → Registry U D L × Submitted U D L
  activate_pair key p r =
      let (lease, r') = activate_claim key p.epoch (generations_of p) p.flow_permit r in
      elim lease [
        | err code ↦ (
          reject_downlink p.downlink code
              (drop_permit p.flow_permit (abandon_claim key p.epoch r')),
          failed code,
        )
        | ok l ↦ (r', paired_of p l)
      ]

  -- The `match` on the outcome of the block.
  unfoldable pub finish_install :
      FlowKey → ℕ → Registry U D L × InstallOutcome U D L → Registry U D L × Submitted U D L
  finish_install key now (r, waiting epoch) = (r, pending epoch)
  finish_install key now (r, completed p) = activate_pair key p r
  finish_install key now (r, unreachable) = (r, panicked)
  finish_install key now (r, refused code downlink abort_pending) =
      let r' =
        if abort_pending then reject_flow_setup key.session_id key.flow_id code now r else r in
      (reject_downlink downlink code r', failed code)

  unfoldable pub submit_tcp :
      ℕ
      → FlowHeader
      → Option Target
      → LinkHalf
      → Half U D L
      → ℕ
      → Registry U D L
      → Registry U D L × Submitted U D L
  submit_tcp session_id header target link half now r =
      let key = key_of session_id header in
      elim (validate_header_and_link session_id header tcp target link r) [
        | err code ↦ fail_early session_id header half code now r
        | ok _ ↦
            if not (tcp_shape header.role half)
            then fail_early session_id header half FlowErrorCode.invalid_request now r
            else if is_duplex header.role
            then (let (tombstone, r') = terminal_rejection key true now r in
                elim tombstone [
                  | some code ↦ (reject_downlink half.writer code r', failed code)
                  | none ↦ submit_duplex session_id header target link half none r'
                ])
            else finish_install key now
                (install tcp key header.role (metadata_of header) target link half none now r)
      ]

  -- The half of a UDP flow, behind its permit.
  unfoldable pub submit_permitted :
      ℕ
      → FlowHeader
      → Option Target
      → LinkHalf
      → Half U D L
      → Option ℕ
      → ℕ
      → Registry U D L
      → Registry U D L × Submitted U D L
  submit_permitted session_id header target link half permit now r =
      if is_duplex header.role
      then submit_duplex session_id header target link half permit r
      else (let key = key_of session_id header in
          finish_install key now
            (install udp key header.role (metadata_of header) target link half permit now r))

  -- An OPEN or a duplex flow takes a permit, and is refused by a tombstone before that.
  unfoldable pub submit_with_permit :
      ℕ
      → FlowHeader
      → Option Target
      → LinkHalf
      → Half U D L
      → ℕ
      → Registry U D L
      → Registry U D L × Submitted U D L
  submit_with_permit session_id header target link half now r =
      let (tombstone, r') =
        terminal_rejection (key_of session_id header) (is_duplex header.role) now r in
      elim tombstone [
        | some code ↦ (reject_downlink half.writer code r', failed code)
        | none ↦
            let (permit, r'') = acquire_udp_permit session_id r' in
            elim permit [
              | err code ↦ fail_early session_id header half code now r''
              | ok semaphore ↦
                  submit_permitted session_id header target link half (some semaphore) now r''
            ]
      ]

  unfoldable pub submit_udp :
      ℕ
      → FlowHeader
      → Option Target
      → LinkHalf
      → Half U D L
      → ℕ
      → Registry U D L
      → Registry U D L × Submitted U D L
  submit_udp session_id header target link half now r =
      elim (validate_header_and_link session_id header udp target link r) [
        | err code ↦ fail_early session_id header half code now r
        | ok _ ↦
            if not (udp_shape header.role half)
            then fail_early session_id header half FlowErrorCode.invalid_request now r
            else if is_attach header.role
            then submit_permitted session_id header target link half none now r
            else submit_with_permit session_id header target link half now r
      ]
