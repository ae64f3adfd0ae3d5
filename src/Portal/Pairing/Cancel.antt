-- ===== src/Portal/Pairing/Cancel.antt =====
-- src/portal/pairing.rs: the ends of flows that wait or run. A timeout is a step that the runtime
-- takes some time after `submit_tcp` or `submit_udp` gave the epoch.
use nowhere.Common.{
  ℕ, List, [], ◌∷◌, ◌++◌, Bool, true, false, not, ◌==◌, ◌&&◌, if◌then◌else◌, Option, none, some,
}
use nowhere.Common.Map.{get, remove, keep}
use nowhere.Protocol.Flow.{FlowKind, tcp, udp}
use nowhere.Protocol.Setup.{FlowErrorCode}
use nowhere.Portal.Pairing.{
  FlowKey, same_flow, same_generation, FlowClaim, FlowLease, Pending, Registry,
}
use nowhere.Portal.Pairing.Claims.{
  is_some, contains_generation, abandon_claim, finish_flow, drop_permit,
}
use nowhere.Portal.Pairing.Reject.{
  pending_of, with_pending, permit_of, reject_downlink, reject_flow_setup,
}

-- The tokens of the active claims of a session that a generation carries.
abbrev pub tokens_of : ℕ → ℕ → List (FlowKey × FlowClaim) → List ℕ
tokens_of session_id generation [] = []
tokens_of session_id generation ((k, claim) ∷ claims) =
    let rest = tokens_of session_id generation claims in
    if k.session_id == session_id
      && claim.active
      && contains_generation generation claim.quic_generations
    then claim.cancel ∷ rest
    else rest

abbrev pub all_tokens : List (FlowKey × FlowClaim) → List ℕ
all_tokens [] = []
all_tokens ((k, claim) ∷ claims) = claim.cancel ∷ all_tokens claims

-- Whether a waiting flow of the session was first seen under the generation.
abbrev pub snapshot_is : {U D L : Type 0} → ℕ → ℕ → FlowKey → Pending U D L → Bool
snapshot_is session_id generation k p =
    k.session_id == session_id && same_generation p.quic_snapshot (some generation)

abbrev pub snapshot_keys : {U D L : Type 0} → ℕ → ℕ → List (FlowKey × Pending U D L) → List FlowKey
snapshot_keys session_id generation [] = []
snapshot_keys session_id generation ((k, p) ∷ m) =
    let rest = snapshot_keys session_id generation m in
    if snapshot_is session_id generation k p then k ∷ rest else rest

abbrev pub has_key : FlowKey → List FlowKey → Bool
has_key k [] = false
has_key k (j ∷ keys) = if same_flow j k then true else has_key k keys

-- `extend` of the set of keys.
abbrev pub extend_keys : List FlowKey → List FlowKey → List FlowKey
extend_keys keys [] = keys
extend_keys keys (k ∷ more) =
    if has_key k keys then extend_keys keys more else extend_keys (keys ++ (k ∷ [])) more

module _ {U D L : Type 0} where
  -- The flow that a timeout takes out under the lock, where it still waits with its epoch.
  abbrev pub expired : FlowKind → FlowKey → ℕ → Registry U D L → Option (Pending U D L)
  expired kind key epoch r = elim (get same_flow key (pending_of kind r)) [
    | none ↦ none
    | some p ↦ if p.epoch == epoch then some p else none
  ]

  -- A pending flow is taken out of its map.
  abbrev pub remove_pending : FlowKind → FlowKey → Registry U D L → Registry U D L
  remove_pending kind key r = with_pending kind (remove same_flow key (pending_of kind r)) r

  -- What `spawn_tcp_timeout` and `spawn_udp_timeout` do when the time is over.
  unfoldable pub time_out : FlowKind → FlowKey → ℕ → ℕ → Registry U D L → Registry U D L
  time_out kind key epoch now r = elim (expired kind key epoch r) [
    | none ↦ r
    | some p ↦
        let r' = drop_permit p.flow_permit (remove_pending kind key r) in
        if is_some p.uplink && not (is_some p.downlink)
        then reject_flow_setup key.session_id key.flow_id FlowErrorCode.pair_timeout now r'
        else abandon_claim key epoch (reject_downlink p.downlink FlowErrorCode.pair_timeout r')
  ]

  abbrev pub cancel_token : ℕ → Registry U D L → Registry U D L
  cancel_token token r = record r { cancelled = r.cancelled ++ (token ∷ []) }

  unfoldable pub cancel_udp : ℕ → ℕ → Registry U D L → Registry U D L
  cancel_udp session_id flow_id r =
      let key : FlowKey = record { session_id = session_id; flow_id = flow_id } in
      let r' = drop_permit (permit_of (get same_flow key r.udp)) (remove_pending udp key r) in
      elim (get same_flow key r'.claims) [
        | none ↦ r'
        | some claim ↦
            if claim.active then cancel_token claim.cancel r' else abandon_claim key claim.epoch r'
      ]

  -- The drop of a lease: the claim ends, and the permit goes back.
  unfoldable pub drop_lease : FlowLease → Registry U D L → Registry U D L
  drop_lease lease r = drop_permit lease.udp_permit (finish_flow lease.key lease.epoch r)

  unfoldable pub cancel_active_quic_generation : ℕ → ℕ → Registry U D L → Registry U D L
  cancel_active_quic_generation session_id generation r = record r {
    cancelled = r.cancelled ++ tokens_of session_id generation r.claims;
  }

  abbrev pub reject_all : List FlowKey → FlowErrorCode → ℕ → Registry U D L → Registry U D L
  reject_all [] code now r = r
  reject_all (k ∷ keys) code now r =
      reject_all keys code now (reject_flow_setup k.session_id k.flow_id code now r)

  unfoldable pub purge_quic_generation : ℕ → ℕ → ℕ → Registry U D L → Registry U D L
  purge_quic_generation session_id generation now r =
      let stale =
        extend_keys (snapshot_keys session_id generation r.tcp)
          (snapshot_keys session_id generation r.udp) in
      reject_all stale FlowErrorCode.session_replaced now r

  unfoldable pub replace_quic_generation : ℕ → ℕ → ℕ → Registry U D L → Registry U D L
  replace_quic_generation session_id generation now r =
      purge_quic_generation session_id generation now
        (cancel_active_quic_generation session_id generation r)

  -- The permits of the pending flows that go.
  abbrev pub drop_permits : List (FlowKey × Pending U D L) → Registry U D L → Registry U D L
  drop_permits [] r = r
  drop_permits ((k, p) ∷ m) r = drop_permits m (drop_permit p.flow_permit r)

  abbrev pub clear_pending : FlowKind → Registry U D L → Registry U D L
  clear_pending kind r = with_pending kind [] r

  abbrev pub clear_rejections : Registry U D L → Registry U D L
  clear_rejections r = record r { rejections = [] }

  abbrev pub retain_active : Registry U D L → Registry U D L
  retain_active r = record r { claims = keep (λ k claim. claim.active) r.claims }

  -- Each part takes a lock of its own.
  unfoldable pub drain_pending : Registry U D L → Registry U D L
  drain_pending r =
      let r' = clear_pending tcp r in
      retain_active (clear_rejections (drop_permits r'.udp (clear_pending udp r')))

  -- The part of `cancel_all` that holds the claims.
  abbrev pub cancel_claims : Registry U D L → Registry U D L
  cancel_claims r = record r { cancelled = r.cancelled ++ all_tokens r.claims }

  unfoldable pub cancel_all : Registry U D L → Registry U D L
  cancel_all r = drain_pending (cancel_claims r)
