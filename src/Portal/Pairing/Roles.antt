-- ===== src/Portal/Pairing/Roles.antt =====
-- src/portal/pairing.rs: a submission by its role, behind the tests at its start.
use nowhere.Common.{ℕ, ◌≡◌, refl, Bool, true, false, ◌&&◌, Option, inl, inr, Result-cases}
use nowhere.Protocol.Flow.{FlowRole, duplex, open_half, attach, FlowKind, FlowHeader}
use nowhere.Protocol.Setup.{FlowErrorCode}
use nowhere.Protocol.Target.{Target}
use nowhere.Portal.Pairing.{FlowKey, Metadata, LinkHalf, Registry}
use nowhere.Portal.Pairing.Arms.{Half, arm_matches, is_duplex}
use nowhere.Portal.Pairing.Claims.{is_some, to_list, drop_permit, reserve_claim, activate_claim}
use nowhere.Portal.Pairing.Reject.{reject_downlink, terminal_rejection}
use nowhere.Portal.Pairing.Install.{install}
use nowhere.Portal.Pairing.Submit.{
  key_of, metadata_of, duplex_pending, submit_duplex, finish_install,
}
use nowhere.Portal.Pairing.State.{Sound}
use nowhere.Portal.Pairing.Calm.{activate_claim-Calm, abandon_claim-Calm, terminal_rejection-Calm}
use nowhere.Portal.Pairing.Halves.{
  Calm-Sound, drop_permit-Sound, reject_downlink-Sound, reserve_claim-Sound,
}
use nowhere.Portal.Pairing.Fill.{Brings}
use nowhere.Portal.Pairing.Pairs.{install-Placed}
use nowhere.Portal.Pairing.Offers.{Safe, paired_of-Belongs, finish_install-Safe}

pub duplex_role : (role : FlowRole) → is_duplex role ≡ true → role ≡ duplex
duplex_role duplex e = refl
duplex_role open_half e = cc
duplex_role attach e = cc

module _ {U D L : Type 0} (Up : FlowKey → Metadata → Target → U → Type 0)
    (Down : FlowKey → Metadata → D → Type 0) where
  pub submit_duplex-Safe :
      (session_id : ℕ) (header : FlowHeader) (target : Option Target) (link : LinkHalf)
      (half : Half U D L) (permit : Option ℕ) (r : Registry U D L)
      → Brings Up Down duplex (key_of session_id header) (metadata_of header) target half link.path
      → is_some half.reader && is_some half.writer ≡ true
      → Sound Up Down r
      → Safe Up Down
          (key_of session_id header)
          (metadata_of header)
          (submit_duplex session_id header target link half permit r)
  unfolding submit_duplex
  submit_duplex-Safe session_id header target link half permit r brings both sound =
      let key = key_of session_id header in
      let reserved = reserve_claim key (metadata_of header) target link.quic_generation r in
      let sound' =
        reserve_claim-Sound Up Down key (metadata_of header) target link.quic_generation r sound in
      let fail : (code : FlowErrorCode) (s : Registry U D L)
          → Sound Up Down s
          → Sound Up Down (drop_permit permit (reject_downlink half.writer code s)) =
        λ code s a.
          drop_permit-Sound Up Down permit _ (reject_downlink-Sound Up Down half.writer code s a) in
      elim (Result-cases reserved.0) [
        | inr (code, e) ↦ rw (submit_duplex, e) (fail code _ sound', tt)
        | inl ((epoch, false), e) ↦
            rw (submit_duplex, e) (fail FlowErrorCode.metadata_conflict _ sound', tt)
        | inl ((epoch, true), e) ↦
            let generations = to_list link.quic_generation in
            let activated = activate_claim key epoch generations permit reserved.1 in
            let sound'' =
              Calm-Sound Up Down reserved.1 activated.1
                (activate_claim-Calm key epoch generations permit reserved.1) sound' in
            elim (Result-cases activated.0) [
              | inr (code, f) ↦
                  rw (submit_duplex, e, f)
                    (
                      fail code _ (
                          Calm-Sound Up Down activated.1 _
                            (abandon_claim-Calm key epoch activated.1) sound''),
                      tt,
                    )
              | inl (lease, f) ↦
                  rw (submit_duplex, e, f)
                    (
                      sound'',
                      paired_of-Belongs Up Down key (metadata_of header)
                          (duplex_pending header target link half epoch) lease
                          (record { same = refl; halves = brings; both = both }),
                    )
            ]
      ]

  -- The half of a flow that is not duplex: an arm matches it.
  pub half-Safe :
      (kind : FlowKind) (key : FlowKey) (role : FlowRole) (metadata : Metadata)
      (target : Option Target) (link : LinkHalf) (half : Half U D L) (permit : Option ℕ) (now : ℕ)
      (r : Registry U D L)
      → arm_matches kind role half ≡ true
      → Brings Up Down role key metadata target half link.path
      → Sound Up Down r
      → Safe Up Down key metadata
          (finish_install key now (install kind key role metadata target link half permit now r))
  half-Safe kind key role metadata target link half permit now r fits brings sound =
      finish_install-Safe Up Down key metadata now
        (install kind key role metadata target link half permit now r)
        (install-Placed Up Down kind key role metadata target link half permit now r fits brings
          sound)

  pub tombstone-Sound :
      (key : FlowKey) (consume : Bool) (now : ℕ) (r : Registry U D L)
      → Sound Up Down r
      → Sound Up Down (terminal_rejection key consume now r).1
  tombstone-Sound key consume now r sound =
      Calm-Sound Up Down r (terminal_rejection key consume now r).1
        (terminal_rejection-Calm key consume now r) sound
