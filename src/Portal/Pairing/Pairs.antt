-- ===== src/Portal/Pairing/Pairs.antt =====
-- src/portal/pairing.rs: what the block `'install` leaves in the registry and gives.
use nowhere.Common.{
  ℕ, ◌≡◌, subst, true, false, ◌&&◌, Option, Bool-cases, Option-cases, inl, inr, Result-cases,
}
use nowhere.Common.Map.{get, get-Each}
use nowhere.Protocol.Flow.{FlowRole, FlowKind}
use nowhere.Protocol.Target.{Target}
use nowhere.Portal.Pairing.{
  FlowKey, same_flow, Metadata, same_metadata, LinkHalf, Pending, Registry,
}
use nowhere.Portal.Pairing.Arms.{is_attach, Half, Filling-cases, arm_matches, fill}
use nowhere.Portal.Pairing.Claims.{
  is_some, or_target, active_quic_generation, validate_current_link, reserve_claim, refresh_claim,
}
use nowhere.Portal.Pairing.Reject.{pending_of, terminal_rejection}
use nowhere.Portal.Pairing.Install.{
  InstallOutcome, waiting, completed, refused, unreachable, drop_stale, lacks_permit, settle, meet,
  place, install,
}
use nowhere.Portal.Pairing.State.{
  same_flow_eq, same_metadata_eq, same_metadata_refl, IsHalves, Sound,
}
use nowhere.Portal.Pairing.Calm.{abandon_claim-Calm, refresh_claim-Calm, terminal_rejection-Calm}
use nowhere.Portal.Pairing.Halves.{
  Calm-Sound, pending-Each, remove_pending-Sound, put_pending-Sound, drop_permit-Sound,
  reserve_claim-Sound,
}
use nowhere.Portal.Pairing.Fill.{Brings, Filled, fill-Filled, fill-new, drop_stale-Sound}

module _ {U D L : Type 0} (Up : FlowKey → Metadata → Target → U → Type 0)
    (Down : FlowKey → Metadata → D → Type 0) where
  -- Both halves are there, of the flow and of its metadata.
  pub record Whole (key : FlowKey) (metadata : Metadata) (p : Pending U D L) : Type 0 where
    pub same : p.metadata ≡ metadata
    pub halves : IsHalves Up Down key p
    pub both : is_some p.uplink && is_some p.downlink ≡ true

  abbrev pub IsOutcome : FlowKey → Metadata → InstallOutcome U D L → Type 0
  IsOutcome key metadata (completed p) = Whole key metadata p
  IsOutcome key metadata (waiting epoch) = Unit {0}
  IsOutcome key metadata (refused code downlink abort_pending) = Unit {0}
  IsOutcome key metadata unreachable = ⊥

  abbrev pub Placed : FlowKey → Metadata → Registry U D L × InstallOutcome U D L → Type 0
  Placed key metadata x = Sound Up Down x.0 × IsOutcome key metadata x.1

  settle-Placed :
      (kind : FlowKind) (key : FlowKey) (metadata : Metadata) (p : Pending U D L)
      (r : Registry U D L)
      → p.metadata ≡ metadata
      → IsHalves Up Down key p
      → Sound Up Down r
      → Placed key metadata (settle kind key p r)
  unfolding settle
  settle-Placed kind key metadata p r same halves sound =
      let removed = remove_pending-Sound Up Down kind key r sound in
      let refreshed =
        Calm-Sound Up Down r (refresh_claim key r).1 (refresh_claim-Calm key r) sound in
      elim (Bool-cases (is_some p.uplink && is_some p.downlink)) [
        | inl both ↦ elim (Bool-cases (lacks_permit kind p)) [
          | inl l ↦
              rw (settle, both, l)
                (Calm-Sound Up Down _ _ (abandon_claim-Calm key p.epoch _) removed, tt)
          | inr l ↦
              rw (settle, both, l) (removed, record { same = same; halves = halves; both = both })
        ]
        | inr one ↦ elim (Result-cases (refresh_claim key r).0) [
          | inl (epoch, e) ↦
              rw (settle, one, e)
                (
                  put_pending-Sound Up Down kind key (record p { epoch = epoch })
                      (refresh_claim key r).1 halves refreshed,
                  tt,
                )
          | inr (code, e) ↦
              rw (settle, one, e)
                (
                  drop_permit-Sound Up Down p.flow_permit _
                      (remove_pending-Sound Up Down kind key (refresh_claim key r).1 refreshed),
                  tt,
                )
        ]
      ]

  -- What is made of a half and a flow, where a flow that is left as it was has proper halves.
  met_half :
      (kind : FlowKind) (key : FlowKey) (role : FlowRole) (metadata : Metadata)
      (target : Option Target) (link : LinkHalf) (half : Half U D L) (permit : Option ℕ)
      (p : Pending U D L) (r : Registry U D L) (Left : Type 0)
      → same_metadata p.metadata metadata ≡ true
      → (Left → IsHalves Up Down key (record p { target = or_target p.target target }))
      → Filled Up Down key metadata Left
          (fill kind role link half permit (record p { target = or_target p.target target }))
      → Sound Up Down r
      → Placed key metadata (meet kind key role metadata target link half permit p r)
  unfolding meet
  met_half kind key role metadata target link half permit p r Left h same filled sound =
      let p' : Pending U D L = record p { target = or_target p.target target } in
      elim (Filling-cases (fill kind role link half permit p')) [
        | inl (q, f) ↦
            let ready = subst (Filled Up Down key metadata Left) f filled in
            rw (meet, h, f) (settle-Placed kind key metadata q r ready.0 ready.1 sound)
        | inr (inr f) ↦ elim (subst (Filled Up Down key metadata Left) f filled) [ ]
        | inr (inl (d, f)) ↦
            let halves = same (subst (Filled Up Down key metadata Left) f filled) in
            rw (meet, h, f)
              (
                drop_permit-Sound Up Down permit _
                    (put_pending-Sound Up Down kind key p' r halves sound),
                tt,
              )
      ]

  -- A flow of other metadata waits on.
  other_metadata :
      (kind : FlowKind) (key : FlowKey) (role : FlowRole) (metadata : Metadata)
      (target : Option Target) (link : LinkHalf) (half : Half U D L) (permit : Option ℕ)
      (p : Pending U D L) (r : Registry U D L)
      → same_metadata p.metadata metadata ≡ false
      → IsHalves Up Down key p
      → Sound Up Down r
      → Placed key metadata (meet kind key role metadata target link half permit p r)
  unfolding meet
  other_metadata kind key role metadata target link half permit p r h halves sound =
      rw (meet, h)
        (
          drop_permit-Sound Up Down permit _ (put_pending-Sound Up Down kind key p r halves sound),
          tt,
        )

  pub Placed-half :
      (kind : FlowKind) (key : FlowKey) (role : FlowRole) (metadata : Metadata)
      (target : Option Target) (link : LinkHalf) (half : Half U D L) (permit : Option ℕ) (epoch : ℕ)
      (r : Registry U D L)
      → arm_matches kind role half ≡ true
      → Brings Up Down role key metadata target half link.path
      → Sound Up Down r
      → Placed key metadata (place kind key role metadata target link half permit epoch r)
  unfolding place
  Placed-half kind key role metadata target link half permit epoch r fits brings sound =
      elim (Option-cases (get same_flow key (pending_of kind r))) [
        | inl e ↦
            rw (place, e)
              (met_half kind key role metadata target link half permit _ r ⊥
                (same_metadata_refl metadata) (λ x. elim x [ ])
                (fill-new Up Down kind role key metadata target link half permit epoch _ fits
                  brings)
                sound)
        | inr (p, e) ↦
            let halves =
              get-Each same_flow (IsHalves Up Down) same_flow_eq key (pending_of kind r) p
                (pending-Each Up Down kind r sound) e in
            elim (Bool-cases (same_metadata p.metadata metadata)) [
              | inl h ↦
                  rw (place, e)
                    (met_half kind key role metadata target link half permit p r _ h (λ x. x)
                      (fill-Filled Up Down kind role key metadata target link half permit p fits
                        brings (same_metadata_eq p.metadata metadata h) halves)
                      sound)
              | inr h ↦
                  rw (place, e)
                    (other_metadata kind key role metadata target link half permit p r h halves
                      sound)
            ]
      ]

  pub install-Placed :
      (kind : FlowKind) (key : FlowKey) (role : FlowRole) (metadata : Metadata)
      (target : Option Target) (link : LinkHalf) (half : Half U D L) (permit : Option ℕ) (now : ℕ)
      (r : Registry U D L)
      → arm_matches kind role half ≡ true
      → Brings Up Down role key metadata target half link.path
      → Sound Up Down r
      → Placed key metadata (install kind key role metadata target link half permit now r)
  unfolding install
  install-Placed kind key role metadata target link half permit now r fits brings sound =
      let current : Registry U D L =
        drop_stale kind key (active_quic_generation key.session_id r) r in
      let tombs = terminal_rejection key (is_attach role) now current in
      let sound' : Sound Up Down tombs.1 =
        Calm-Sound Up Down current tombs.1
          (terminal_rejection-Calm key (is_attach role) now current)
          (drop_stale-Sound Up Down kind key (active_quic_generation key.session_id r) r sound) in
      let reserved = reserve_claim key metadata target link.quic_generation tombs.1 in
      let sound'' : Sound Up Down reserved.1 =
        reserve_claim-Sound Up Down key metadata target link.quic_generation tombs.1 sound' in
      elim (Result-cases (validate_current_link key.session_id link r)) [
        | inr (code, e) ↦ rw (install, e) (drop_permit-Sound Up Down permit r sound, tt)
        | inl (ok_link, e) ↦ elim (Option-cases tombs.0) [
          | inr (code, t) ↦ rw (install, e, t) (drop_permit-Sound Up Down permit _ sound', tt)
          | inl t ↦ elim (Result-cases reserved.0) [
            | inr (code, f) ↦ rw (install, e, t, f) (drop_permit-Sound Up Down permit _ sound'', tt)
            | inl ((epoch, created), f) ↦
                rw (install, e, t, f)
                  (Placed-half kind key role metadata target link half permit epoch reserved.1 fits
                    brings sound'')
          ]
        ]
      ]
