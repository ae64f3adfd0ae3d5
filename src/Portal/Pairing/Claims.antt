-- ===== src/Portal/Pairing/Claims.antt =====
-- src/portal/pairing.rs: the claims of flow ids, which hold a flow from its first half to the end
-- of its lease, and the permits of UDP flows.
use nowhere.Common.{
  ℕ, suc, ◌+◌, List, [], ◌∷◌, ◌++◌, Bool, true, false, not, ◌==◌, ltb, leb, ◌&&◌, ◌||◌,
  if◌then◌else◌, Option, none, some, Result, ok, err,
}
use nowhere.Common.Map.{get, remove, put, count}
use nowhere.Protocol.Flow.{FlowRole, attach, FlowKind, Carrier, quic, FlowHeader, same_carrier}
use nowhere.Protocol.Setup.{FlowErrorCode}
use nowhere.Protocol.Target.{Target}
use nowhere.Portal.Pairing.{
  FlowKey, same_flow, same_kind, Metadata, same_metadata, same_target, same_generation, LinkHalf,
  FlowClaim, FlowLease, Registry,
}

-- The keys of `links` and of the semaphores.
abbrev pub same_number : ℕ → ℕ → Bool
same_number a b = a == b

abbrev pub to_list : Option ℕ → List ℕ
to_list none = []
to_list (some n) = n ∷ []

abbrev pub contains_generation : ℕ → List ℕ → Bool
contains_generation n [] = false
contains_generation n (m ∷ ms) = m == n || contains_generation n ms

abbrev pub is_some {ℓ} : {A : Type ℓ} → Option A → Bool
is_some none = false
is_some (some a) = true

-- Two targets that are both known and differ.
abbrev pub target_conflict : Option Target → Option Target → Bool
target_conflict (some existing) (some incoming) = not (same_target existing incoming)
target_conflict _ _ = false

abbrev pub or_target : Option Target → Option Target → Option Target
or_target none new = new
or_target (some old) new = some old

-- Whether every generation is the active one.
abbrev pub all_current : List ℕ → Option ℕ → Bool
all_current [] active = true
all_current (g ∷ gs) active = same_generation (some g) active && all_current gs active

-- A claim of the session that waits for its other half.
abbrev pub waits_in : ℕ → FlowKey → FlowClaim → Bool
waits_in session_id k claim = k.session_id == session_id && not claim.active

-- The `match` of `validate_header_and_link` on the role and the target.
abbrev pub target_fits : FlowRole → Option Target → Bool
target_fits attach target = not (is_some target)
target_fits _ target = is_some target

abbrev pub carrier_of_role : FlowHeader → Carrier
carrier_of_role h = elim h.role [ attach ↦ h.downlink | _ ↦ h.uplink ]

module _ {U D L : Type 0} where
  unfoldable pub active_quic_generation : ℕ → Registry U D L → Option ℕ
  active_quic_generation session_id r = elim (get same_number session_id r.links) [
    | none ↦ none
    | some counts ↦ counts.udp
  ]

  unfoldable pub validate_current_link :
      ℕ → LinkHalf → Registry U D L → Result FlowErrorCode (Unit {0})
  validate_current_link session_id link r =
      let valid : Bool = elim link.quic_generation [
        | some generation ↦ same_generation (active_quic_generation session_id r) (some generation)
        | none ↦ elim (get same_number session_id r.links) [
          | none ↦ false
          | some counts ↦ ltb 0 counts.tcp
        ]
      ] in
      if valid then ok tt else err FlowErrorCode.session_replaced

  unfoldable pub validate_header_and_link :
      ℕ
      → FlowHeader
      → FlowKind
      → Option Target
      → LinkHalf
      → Registry U D L
      → Result FlowErrorCode (Unit {0})
  validate_header_and_link session_id header expected_kind target link r =
      if not (same_kind header.kind expected_kind)
      then err FlowErrorCode.invalid_request
      else if not (target_fits header.role target)
      then err FlowErrorCode.invalid_request
      else (let uses_quic = same_carrier (carrier_of_role header) quic in
          let has_generation = is_some link.quic_generation in
          if (uses_quic && not has_generation)
            || (not uses_quic && has_generation)
            || (has_generation
                && not (same_generation (active_quic_generation session_id r) link.quic_generation))
          then err FlowErrorCode.session_replaced
          else ok tt)

  -- The epoch, and whether the claim is new.
  unfoldable pub reserve_claim :
      FlowKey
      → Metadata
      → Option Target
      → Option ℕ
      → Registry U D L
      → Result FlowErrorCode (ℕ × Bool) × Registry U D L
  reserve_claim key metadata target quic_generation r = elim (get same_flow key r.claims) [
    | some claim ↦
        if claim.active || not (same_metadata claim.metadata metadata)
        then (err FlowErrorCode.metadata_conflict, r)
        else if target_conflict claim.target target
        then (err FlowErrorCode.metadata_conflict, r)
        else (let generations : List ℕ = elim quic_generation [
          | none ↦ claim.quic_generations
          | some g ↦
              if contains_generation g claim.quic_generations
              then claim.quic_generations
              else claim.quic_generations ++ (g ∷ [])
        ] in
            let claim' = record claim {
              target = or_target claim.target target;
              quic_generations = generations;
            } in
            (ok (claim.epoch, false), record r { claims = put same_flow key claim' r.claims }))
    | none ↦
        if leb r.max_pending (count (waits_in key.session_id) r.claims)
        then (err FlowErrorCode.flow_limit, r)
        else (let claim : FlowClaim = record {
          epoch = r.next_epoch;
          metadata = metadata;
          target = target;
          active = false;
          cancel = r.next_epoch;
          quic_generations = to_list quic_generation;
        } in
            (
              ok (r.next_epoch, true),
              record r { claims = put same_flow key claim r.claims; next_epoch = r.next_epoch + 1 },
            ))
  ]

  unfoldable pub refresh_claim : FlowKey → Registry U D L → Result FlowErrorCode ℕ × Registry U D L
  refresh_claim key r = elim (get same_flow key r.claims) [
    | none ↦ (err FlowErrorCode.internal_error, record r { next_epoch = r.next_epoch + 1 })
    | some claim ↦ (
      ok r.next_epoch,
      record r {
        claims = put same_flow key (record claim { epoch = r.next_epoch }) r.claims;
        next_epoch = r.next_epoch + 1;
      },
    )
  ]

  unfoldable pub abandon_claim : FlowKey → ℕ → Registry U D L → Registry U D L
  abandon_claim key epoch r = elim (get same_flow key r.claims) [
    | none ↦ r
    | some claim ↦
        if not claim.active && claim.epoch == epoch
        then record r { claims = remove same_flow key r.claims }
        else r
  ]

  unfoldable pub activate_claim :
      FlowKey
      → ℕ
      → List ℕ
      → Option ℕ
      → Registry U D L
      → Result FlowErrorCode FlowLease × Registry U D L
  activate_claim key epoch quic_generations udp_permit r =
      if not (all_current quic_generations (active_quic_generation key.session_id r))
      then (err FlowErrorCode.session_replaced, r)
      else (elim (get same_flow key r.claims) [
        | none ↦ (err FlowErrorCode.internal_error, r)
        | some claim ↦ (
          ok (record { key = key; epoch = epoch; cancel = claim.cancel; udp_permit = udp_permit }),
          record r {
            claims =
                put same_flow key
                  (record claim {
                    epoch = epoch;
                    active = true;
                    quic_generations = quic_generations;
                  })
                  r.claims;
          },
        )
      ])

  -- The drop of a lease, but for its permit.
  unfoldable pub finish_flow : FlowKey → ℕ → Registry U D L → Registry U D L
  finish_flow key epoch r = elim (get same_flow key r.claims) [
    | none ↦ r
    | some claim ↦
        if claim.active && claim.epoch == epoch
        then record r { claims = remove same_flow key r.claims }
        else r
  ]

  -- `try_acquire_owned` on a semaphore.
  unfoldable pub take_permit : ℕ → Registry U D L → Result FlowErrorCode ℕ × Registry U D L
  take_permit semaphore r = elim (get same_number semaphore r.permits) [
    | some (suc left) ↦
        (ok semaphore, record r { permits = put same_number semaphore left r.permits })
    | _ ↦ (err FlowErrorCode.flow_limit, r)
  ]

  -- The semaphore of the session is looked up under the lock, and the permit taken behind it.
  unfoldable pub acquire_udp_permit : ℕ → Registry U D L → Result FlowErrorCode ℕ × Registry U D L
  acquire_udp_permit session_id r = elim (get same_number session_id r.links) [
    | none ↦ (err FlowErrorCode.session_replaced, r)
    | some counts ↦ take_permit counts.udp_flow_budget r
  ]

  -- The drop of a permit gives it back to its semaphore.
  unfoldable pub drop_permit : Option ℕ → Registry U D L → Registry U D L
  drop_permit none r = r
  drop_permit (some semaphore) r = elim (get same_number semaphore r.permits) [
    | none ↦ r
    | some left ↦ record r { permits = put same_number semaphore (left + 1) r.permits }
  ]
