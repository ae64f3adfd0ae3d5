-- ===== src/Portal/Pairing/Submissions.antt =====
-- src/portal/pairing.rs: `submit_tcp` and `submit_udp` as runs of the steps of their parts.
use nowhere.Common.{
  ℕ, ◌≡◌, true, Option, none, some, Bool-cases, Option-cases, inl, inr, Result-cases,
}
use nowhere.Protocol.Flow.{tcp, udp, FlowHeader}
use nowhere.Protocol.Setup.{FlowErrorCode}
use nowhere.Protocol.Target.{Target}
use nowhere.Portal.Pairing.{FlowKey, Metadata, LinkHalf, Registry}
use nowhere.Portal.Pairing.Arms.{Half, is_attach, is_duplex}
use nowhere.Portal.Pairing.Claims.{validate_header_and_link, acquire_udp_permit}
use nowhere.Portal.Pairing.Reject.{terminal_rejection}
use nowhere.Portal.Pairing.Submit.{
  key_of, metadata_of, tcp_shape, udp_shape, submit_tcp, submit_permitted, submit_with_permit,
  submit_udp,
}
use nowhere.Portal.Pairing.Fill.{Brings}
use nowhere.Portal.Pairing.Shapes.{
  UplinkIs, DownlinkIs, validated_target, tcp_shape-Brings, udp_shape-tcp_shape, tcp_arm,
  udp_shape-arm_matches,
}
use nowhere.Portal.Pairing.Steps.{more, looks_up, writes}
use nowhere.Portal.Pairing.SubmitRuns.{
  install-Reach, finish_install-Reach, fail_early-Reach, submit_duplex-Reach,
}
use nowhere.Portal.Pairing.Runs.{Reached, acquire_udp_permit-Reach}

module _ {U D L : Type 0} (Up : FlowKey → Metadata → Target → U → Type 0)
    (Down : FlowKey → Metadata → D → Type 0) (start : Registry U D L) where
  submit_permitted-Reach :
      (session_id : ℕ) (header : FlowHeader) (target : Option Target) (link : LinkHalf)
      (half : Half U D L) (permit : Option ℕ) (now : ℕ) (r : Registry U D L)
      → Brings Up Down header.role
          (key_of session_id header)
          (metadata_of header)
          target
          half
          link.path
      → udp_shape header.role half ≡ true
      → Reached Up Down start r
      → Reached Up Down start (submit_permitted session_id header target link half permit now r).0
  unfolding submit_permitted
  submit_permitted-Reach session_id header target link half permit now r brings shape reach =
      let key = key_of session_id header in
      elim (Bool-cases (is_duplex header.role)) [
        | inl h ↦
            rw (submit_permitted, h)
              (submit_duplex-Reach Up Down start session_id header target link half permit r reach)
        | inr h ↦
            rw (submit_permitted, h)
              (finish_install-Reach Up Down start key now _ (
                install-Reach Up Down start udp key header.role (metadata_of header) target link
                  half permit now r (udp_shape-arm_matches header.role half h shape) brings reach))
      ]

  submit_with_permit-Reach :
      (session_id : ℕ) (header : FlowHeader) (target : Option Target) (link : LinkHalf)
      (half : Half U D L) (now : ℕ) (r : Registry U D L)
      → Brings Up Down header.role
          (key_of session_id header)
          (metadata_of header)
          target
          half
          link.path
      → udp_shape header.role half ≡ true
      → Reached Up Down start r
      → Reached Up Down start (submit_with_permit session_id header target link half now r).0
  unfolding submit_with_permit
  submit_with_permit-Reach session_id header target link half now r brings shape reach =
      let key = key_of session_id header in
      let tombs = terminal_rejection key (is_duplex header.role) now r in
      let told : Reached Up Down start tombs.1 =
        more r tombs.1 reach (looks_up key (is_duplex header.role) now r) in
      let acquired = acquire_udp_permit session_id tombs.1 in
      let held = acquire_udp_permit-Reach Up Down start session_id tombs.1 told in
      elim (Option-cases tombs.0) [
        | inr (code, e) ↦
            rw (submit_with_permit, e) (more tombs.1 _ told (writes half.writer code tombs.1))
        | inl e ↦ elim (Result-cases acquired.0) [
          | inr (code, f) ↦
              rw (submit_with_permit, e, f)
                (fail_early-Reach Up Down start session_id header half code now acquired.1 held)
          | inl (semaphore, f) ↦
              rw (submit_with_permit, e, f)
                (submit_permitted-Reach session_id header target link half (some semaphore) now
                  acquired.1 brings shape held)
        ]
      ]

  pub submit_tcp-Reach :
      (session_id : ℕ) (header : FlowHeader) (target : Option Target) (link : LinkHalf)
      (half : Half U D L) (now : ℕ) (r : Registry U D L)
      → UplinkIs Up Down (key_of session_id header) (metadata_of header) target half
      → DownlinkIs Up Down (key_of session_id header) (metadata_of header) half
      → Reached Up Down start r
      → Reached Up Down start (submit_tcp session_id header target link half now r).0
  unfolding submit_tcp
  submit_tcp-Reach session_id header target link half now r up down reach =
      let key = key_of session_id header in
      let metadata = metadata_of header in
      let tombs = terminal_rejection key true now r in
      let told : Reached Up Down start tombs.1 = more r tombs.1 reach (looks_up key true now r) in
      elim (Result-cases (validate_header_and_link session_id header tcp target link r)) [
        | inr (code, e) ↦
            rw (submit_tcp, e)
              (fail_early-Reach Up Down start session_id header half code now r reach)
        | inl (valid, e) ↦ elim (Bool-cases (tcp_shape header.role half)) [
          | inr h ↦
              rw (submit_tcp, e, h)
                (fail_early-Reach Up Down start session_id header half FlowErrorCode.invalid_request
                  now r reach)
          | inl h ↦ elim (Bool-cases (is_duplex header.role)) [
            | inr single ↦
                let brings =
                  tcp_shape-Brings Up Down header.role key metadata target half link.path
                    (validated_target session_id header tcp target link r e) h up down in
                rw (submit_tcp, e, h, single)
                  (finish_install-Reach Up Down start key now _ (
                    install-Reach Up Down start tcp key header.role metadata target link half none
                      now r (tcp_arm header.role half single) brings reach))
            | inl double ↦ elim (Option-cases tombs.0) [
              | inr (code, t) ↦
                  rw (submit_tcp, e, h, double, t)
                    (more tombs.1 _ told (writes half.writer code tombs.1))
              | inl t ↦
                  rw (submit_tcp, e, h, double, t)
                    (submit_duplex-Reach Up Down start session_id header target link half none
                      tombs.1 told)
            ]
          ]
        ]
      ]

  pub submit_udp-Reach :
      (session_id : ℕ) (header : FlowHeader) (target : Option Target) (link : LinkHalf)
      (half : Half U D L) (now : ℕ) (r : Registry U D L)
      → UplinkIs Up Down (key_of session_id header) (metadata_of header) target half
      → DownlinkIs Up Down (key_of session_id header) (metadata_of header) half
      → Reached Up Down start r
      → Reached Up Down start (submit_udp session_id header target link half now r).0
  unfolding submit_udp
  submit_udp-Reach session_id header target link half now r up down reach =
      elim (Result-cases (validate_header_and_link session_id header udp target link r)) [
        | inr (code, e) ↦
            rw (submit_udp, e)
              (fail_early-Reach Up Down start session_id header half code now r reach)
        | inl (valid, e) ↦ elim (Bool-cases (udp_shape header.role half)) [
          | inr h ↦
              rw (submit_udp, e, h)
                (fail_early-Reach Up Down start session_id header half FlowErrorCode.invalid_request
                  now r reach)
          | inl h ↦
              let brings =
                tcp_shape-Brings Up Down header.role (key_of session_id header) (metadata_of header)
                  target half link.path (validated_target session_id header udp target link r e)
                  (udp_shape-tcp_shape Up Down header.role half h) up down in
              elim (Bool-cases (is_attach header.role)) [
                | inl a ↦
                    rw (submit_udp, e, h, a)
                      (submit_permitted-Reach session_id header target link half none now r brings h
                        reach)
                | inr a ↦
                    rw (submit_udp, e, h, a)
                      (submit_with_permit-Reach session_id header target link half now r brings h
                        reach)
              ]
        ]
      ]
