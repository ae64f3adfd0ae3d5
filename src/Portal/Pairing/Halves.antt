-- ===== src/Portal/Pairing/Halves.antt =====
-- src/portal/pairing.rs: soundness of the registry where pending flows and claims change.
use nowhere.Common.{
  ℕ, ◌+◌, ◌≡◌, ◌≤◌, sym, subst, List, true, false, not, leb, ◌&&◌, ◌||◌, Option, some, Bool-cases,
  Option-cases, ◌⊎◌, inl, inr, arith,
}
use nowhere.Common.Map.{get, remove, put, count, Each, remove-Each}
use nowhere.Protocol.Flow.{FlowKind, tcp, udp}
use nowhere.Protocol.Setup.{FlowErrorCode}
use nowhere.Protocol.Target.{Target}
use nowhere.Portal.Pairing.{
  FlowKey, same_flow, same_metadata, Metadata, FlowClaim, Pending, Registry,
}
use nowhere.Portal.Pairing.Claims.{is_some, waits_in, reserve_claim, target_conflict, drop_permit}
use nowhere.Portal.Pairing.Reject.{
  pending_of, with_pending, is_active, downlink_of, permit_of, add_tombstone, reject_downlink,
  take_pending, reject_flow_setup,
}
use nowhere.Portal.Pairing.State.{IsHalves, Sound}
use nowhere.Portal.Pairing.ClaimLimit.{remove-NotMore, put-NotMore, put-limit}
use nowhere.Portal.Pairing.Calm.{Calm, drop_permit-Calm, add_tombstone-Calm, reject_downlink-Calm}

module _ {U D L : Type 0} (Up : FlowKey → Metadata → Target → U → Type 0)
    (Down : FlowKey → Metadata → D → Type 0) where
  pub Calm-Sound : (r s : Registry U D L) → Calm r s → Sound Up Down r → Sound Up Down s
  Calm-Sound r s calm sound = record {
    tcp_halves = subst (Each (IsHalves Up Down)) (sym calm.same_tcp) sound.tcp_halves;
    udp_halves = subst (Each (IsHalves Up Down)) (sym calm.same_udp) sound.udp_halves;
    limit = λ i.
        rw (calm.same_limit)
          (let more = calm.not_more i in let most = sound.limit i in omega (arith, more, most));
  }

  pub pending-Each :
      (kind : FlowKind) (r : Registry U D L)
      → Sound Up Down r
      → Each (IsHalves Up Down) (pending_of kind r)
  pending-Each tcp r sound = sound.tcp_halves
  pending-Each udp r sound = sound.udp_halves

  pub with_pending-Sound :
      (kind : FlowKind) (m : List (FlowKey × Pending U D L)) (r : Registry U D L)
      → Each (IsHalves Up Down) m
      → Sound Up Down r
      → Sound Up Down (with_pending kind m r)
  with_pending-Sound tcp m r each sound = record {
    tcp_halves = each;
    udp_halves = sound.udp_halves;
    limit = sound.limit;
  }
  with_pending-Sound udp m r each sound = record {
    tcp_halves = sound.tcp_halves;
    udp_halves = each;
    limit = sound.limit;
  }

  -- A pending flow leaves the map.
  pub remove_pending-Sound :
      (kind : FlowKind) (key : FlowKey) (r : Registry U D L)
      → Sound Up Down r
      → Sound Up Down (with_pending kind (remove same_flow key (pending_of kind r)) r)
  remove_pending-Sound kind key r sound =
      with_pending-Sound kind (remove same_flow key (pending_of kind r)) r
        (remove-Each same_flow (IsHalves Up Down) key (pending_of kind r)
          (pending-Each kind r sound))
        sound

  -- A flow with proper halves waits in the map.
  pub put_pending-Sound :
      (kind : FlowKind) (key : FlowKey) (p : Pending U D L) (r : Registry U D L)
      → IsHalves Up Down key p
      → Sound Up Down r
      → Sound Up Down (with_pending kind (put same_flow key p (pending_of kind r)) r)
  put_pending-Sound kind key p r halves sound =
      with_pending-Sound kind (put same_flow key p (pending_of kind r)) r
        (
          halves,
          remove-Each same_flow (IsHalves Up Down) key (pending_of kind r)
              (pending-Each kind r sound),
        )
        sound

  new_claims-Sound :
      (r : Registry U D L) (claims : List (FlowKey × FlowClaim)) (epoch : ℕ)
      → ((session_id : ℕ) → count (waits_in session_id) claims ≤ r.max_pending)
      → Sound Up Down r
      → Sound Up Down (record r { claims = claims; next_epoch = epoch })
  new_claims-Sound r claims epoch limit sound = record {
    tcp_halves = sound.tcp_halves;
    udp_halves = sound.udp_halves;
    limit = limit;
  }

  changed_claim-Sound :
      (key : FlowKey) (old new : FlowClaim) (r : Registry U D L)
      → get same_flow key r.claims ≡ some old
      → (new.active ≡ true) ⊎ (old.active ≡ false)
      → Sound Up Down r
      → Sound Up Down (record r { claims = put same_flow key new r.claims })
  changed_claim-Sound key old new r e a sound =
      new_claims-Sound r (put same_flow key new r.claims) r.next_epoch
        (λ i.
          let less = put-NotMore key old new r.claims e a i in
          let most = sound.limit i in omega (arith, less, most))
        sound

  new_claim-Sound :
      (key : FlowKey) (new : FlowClaim) (r : Registry U D L)
      → leb r.max_pending (count (waits_in key.session_id) r.claims) ≡ false
      → Sound Up Down r
      → Sound Up Down
          (record r { claims = put same_flow key new r.claims; next_epoch = r.next_epoch + 1 })
  new_claim-Sound key new r free sound =
      new_claims-Sound r (put same_flow key new r.claims) (r.next_epoch + 1)
        (put-limit key new r.claims r.max_pending free sound.limit) sound

  pub drop_permit-Sound :
      (permit : Option ℕ) (r : Registry U D L)
      → Sound Up Down r
      → Sound Up Down (drop_permit permit r)
  drop_permit-Sound permit r sound =
      Calm-Sound r (drop_permit permit r) (drop_permit-Calm permit r) sound

  pub reject_downlink-Sound :
      (downlink : Option D) (code : FlowErrorCode) (r : Registry U D L)
      → Sound Up Down r
      → Sound Up Down (reject_downlink downlink code r)
  reject_downlink-Sound downlink code r sound =
      Calm-Sound r (reject_downlink downlink code r) (reject_downlink-Calm downlink code r) sound

  pub reserve_claim-Sound :
      (key : FlowKey) (metadata : Metadata) (target : Option Target) (generation : Option ℕ)
      (r : Registry U D L)
      → Sound Up Down r
      → Sound Up Down (reserve_claim key metadata target generation r).1
  unfolding reserve_claim
  reserve_claim-Sound key metadata target generation r sound =
      elim (Option-cases (get same_flow key r.claims)) [
        | inl e ↦ elim (Bool-cases (leb r.max_pending (count (waits_in key.session_id) r.claims))) [
          | inl h ↦ rw (reserve_claim, e, h) sound
          | inr h ↦ rw (reserve_claim, e, h) (new_claim-Sound key _ r h sound)
        ]
        | inr (claim, e) ↦
            elim (Bool-cases (claim.active || not (same_metadata claim.metadata metadata))) [
              | inl h ↦ rw (reserve_claim, e, h) sound
              | inr h ↦ elim (Bool-cases (target_conflict claim.target target)) [
                | inl c ↦ rw (reserve_claim, e, h, c) sound
                | inr c ↦
                    rw (reserve_claim, e, h, c)
                      (changed_claim-Sound key claim _ r e (Bool-cases claim.active) sound)
              ]
            ]
      ]

  cleared-Sound :
      (key : FlowKey) (r : Registry U D L)
      → Sound Up Down r
      → Sound Up Down (record r {
        tcp = remove same_flow key r.tcp;
        udp = remove same_flow key r.udp;
        claims = remove same_flow key r.claims;
      })
  cleared-Sound key r sound = record {
    tcp_halves = remove-Each same_flow (IsHalves Up Down) key r.tcp sound.tcp_halves;
    udp_halves = remove-Each same_flow (IsHalves Up Down) key r.udp sound.udp_halves;
    limit = λ i.
        let less = remove-NotMore key r.claims i in
        let most = sound.limit i in omega (arith, less, most);
  }

  pub take_pending-Sound :
      (key : FlowKey) (code : FlowErrorCode) (now : ℕ) (r : Registry U D L)
      → Sound Up Down r
      → Sound Up Down (take_pending key code now r)
  unfolding take_pending
  take_pending-Sound key code now r sound =
      let cleared : Registry U D L = record r {
        tcp = remove same_flow key r.tcp;
        udp = remove same_flow key r.udp;
        claims = remove same_flow key r.claims;
      } in
      elim (Bool-cases (
        not (is_some (downlink_of (get same_flow key r.tcp)))
        && not (is_some (downlink_of (get same_flow key r.udp))))) [
          | inl h ↦
              rw (take_pending, h)
                (Calm-Sound cleared (add_tombstone key code now cleared)
                  (add_tombstone-Calm key code now cleared) (cleared-Sound key r sound))
          | inr h ↦ rw (take_pending, h) (cleared-Sound key r sound)
        ]

  pub reject_flow_setup-Sound :
      (session_id flow_id : ℕ) (code : FlowErrorCode) (now : ℕ) (r : Registry U D L)
      → Sound Up Down r
      → Sound Up Down (reject_flow_setup session_id flow_id code now r)
  unfolding reject_flow_setup
  reject_flow_setup-Sound session_id flow_id code now r sound =
      let key : FlowKey = record { session_id = session_id; flow_id = flow_id } in
      let rejected : Sound Up Down (
          reject_downlink (downlink_of (get same_flow key r.udp)) code (
            reject_downlink (downlink_of (get same_flow key r.tcp)) code
              (drop_permit (permit_of (get same_flow key r.udp)) (take_pending key code now r)))) =
        reject_downlink-Sound (downlink_of (get same_flow key r.udp)) code _ (
          reject_downlink-Sound (downlink_of (get same_flow key r.tcp)) code _ (
            drop_permit-Sound (permit_of (get same_flow key r.udp)) (take_pending key code now r)
              (take_pending-Sound key code now r sound))) in
      elim (Bool-cases (is_active key r)) [
        | inl h ↦ rw (reject_flow_setup, h) sound
        | inr h ↦ rw (reject_flow_setup, h) rejected
      ]
