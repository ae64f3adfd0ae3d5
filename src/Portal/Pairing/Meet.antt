-- ===== src/Portal/Pairing/Meet.antt =====
-- src/portal/pairing.rs: `submit_tcp` and `submit_udp` as a whole: where the halves of a flow
-- meet.
use nowhere.Common.{
  ℕ, ◌≡◌, subst, true, Option, none, some, Bool-cases, Option-cases, inl, inr, Result-cases,
}
use nowhere.Protocol.Flow.{tcp, udp, FlowHeader}
use nowhere.Protocol.Setup.{FlowErrorCode}
use nowhere.Protocol.Target.{Target}
use nowhere.Portal.Pairing.{FlowKey, Metadata, LinkHalf, Registry}
use nowhere.Portal.Pairing.Arms.{is_attach, Half, is_duplex}
use nowhere.Portal.Pairing.Claims.{validate_header_and_link, acquire_udp_permit}
use nowhere.Portal.Pairing.Reject.{terminal_rejection}
use nowhere.Portal.Pairing.Submit.{
  key_of, metadata_of, tcp_shape, udp_shape, submit_permitted, submit_with_permit, submit_tcp,
  submit_udp,
}
use nowhere.Portal.Pairing.State.{Sound}
use nowhere.Portal.Pairing.Calm.{acquire_udp_permit-Calm}
use nowhere.Portal.Pairing.Halves.{Calm-Sound, reject_downlink-Sound}
use nowhere.Portal.Pairing.Fill.{Brings}
use nowhere.Portal.Pairing.Shapes.{
  UplinkIs, DownlinkIs, validated_target, tcp_shape-Brings, udp_shape-tcp_shape, tcp_arm,
  udp_shape-arm_matches,
}
use nowhere.Portal.Pairing.Offers.{Safe, fail_early-Safe}
use nowhere.Portal.Pairing.Roles.{duplex_role, submit_duplex-Safe, half-Safe, tombstone-Sound}

module _ {U D L : Type 0} (Up : FlowKey → Metadata → Target → U → Type 0)
    (Down : FlowKey → Metadata → D → Type 0) where
  submit_permitted-Safe :
      (session_id : ℕ) (header : FlowHeader) (target : Option Target) (link : LinkHalf)
      (half : Half U D L) (permit : Option ℕ) (now : ℕ) (r : Registry U D L)
      → Brings Up Down header.role
          (key_of session_id header)
          (metadata_of header)
          target
          half
          link.path
      → udp_shape header.role half ≡ true
      → Sound Up Down r
      → Safe Up Down
          (key_of session_id header)
          (metadata_of header)
          (submit_permitted session_id header target link half permit now r)
  unfolding submit_permitted
  submit_permitted-Safe session_id header target link half permit now r brings shape sound =
      let key = key_of session_id header in
      let metadata = metadata_of header in
      elim (Bool-cases (is_duplex header.role)) [
        | inl h ↦
            let role = duplex_role header.role h in
            rw (submit_permitted, h)
              (submit_duplex-Safe Up Down session_id header target link half permit r
                (subst (λ i. Brings Up Down i key metadata target half link.path) role brings)
                (subst (λ i. udp_shape i half ≡ true) role shape) sound)
        | inr h ↦
            rw (submit_permitted, h)
              (half-Safe Up Down udp key header.role metadata target link half permit now r
                (udp_shape-arm_matches header.role half h shape) brings sound)
      ]

  submit_with_permit-Safe :
      (session_id : ℕ) (header : FlowHeader) (target : Option Target) (link : LinkHalf)
      (half : Half U D L) (now : ℕ) (r : Registry U D L)
      → Brings Up Down header.role
          (key_of session_id header)
          (metadata_of header)
          target
          half
          link.path
      → udp_shape header.role half ≡ true
      → Sound Up Down r
      → Safe Up Down
          (key_of session_id header)
          (metadata_of header)
          (submit_with_permit session_id header target link half now r)
  unfolding submit_with_permit
  submit_with_permit-Safe session_id header target link half now r brings shape sound =
      let tombs = terminal_rejection (key_of session_id header) (is_duplex header.role) now r in
      let sound' =
        tombstone-Sound Up Down (key_of session_id header) (is_duplex header.role) now r sound in
      let acquired = acquire_udp_permit session_id tombs.1 in
      let sound'' =
        Calm-Sound Up Down tombs.1 acquired.1 (acquire_udp_permit-Calm session_id tombs.1) sound' in
      elim (Option-cases tombs.0) [
        | inr (code, e) ↦
            rw (submit_with_permit, e)
              (reject_downlink-Sound Up Down half.writer code tombs.1 sound', tt)
        | inl e ↦ elim (Result-cases acquired.0) [
          | inr (code, f) ↦
              rw (submit_with_permit, e, f)
                (fail_early-Safe Up Down session_id header half code now acquired.1 sound'')
          | inl (semaphore, f) ↦
              rw (submit_with_permit, e, f)
                (submit_permitted-Safe session_id header target link half (some semaphore) now
                  acquired.1 brings shape sound'')
        ]
      ]

  -- Let the registry be sound, and let Up hold of the reader that is offered with its target and
  -- Down of the writer, for the key and the metadata of the header. Then submit_tcp leaves the
  -- registry sound on every branch, does not panic, and a pair that it gives has a target and an
  -- uplink of which Up holds for that key and that metadata, a downlink of which Down holds, and
  -- the carriers of the metadata.
  pub submit_tcp-Safe :
      (session_id : ℕ) (header : FlowHeader) (target : Option Target) (link : LinkHalf)
      (half : Half U D L) (now : ℕ) (r : Registry U D L)
      → UplinkIs Up Down (key_of session_id header) (metadata_of header) target half
      → DownlinkIs Up Down (key_of session_id header) (metadata_of header) half
      → Sound Up Down r
      → Safe Up Down
          (key_of session_id header)
          (metadata_of header)
          (submit_tcp session_id header target link half now r)
  unfolding submit_tcp
  submit_tcp-Safe session_id header target link half now r up down sound =
      let key = key_of session_id header in
      let metadata = metadata_of header in
      let tombs = terminal_rejection key true now r in
      let sound' = tombstone-Sound Up Down key true now r sound in
      elim (Result-cases (validate_header_and_link session_id header tcp target link r)) [
        | inr (code, e) ↦
            rw (submit_tcp, e) (fail_early-Safe Up Down session_id header half code now r sound)
        | inl (valid, e) ↦ elim (Bool-cases (tcp_shape header.role half)) [
          | inr h ↦
              rw (submit_tcp, e, h)
                (fail_early-Safe Up Down session_id header half FlowErrorCode.invalid_request now r
                  sound)
          | inl h ↦
              let fits = validated_target session_id header tcp target link r e in
              let brings =
                tcp_shape-Brings Up Down header.role key metadata target half link.path fits h up
                  down in
              elim (Bool-cases (is_duplex header.role)) [
                | inr single ↦
                    rw (submit_tcp, e, h, single)
                      (half-Safe Up Down tcp key header.role metadata target link half none now r
                        (tcp_arm header.role half single) brings sound)
                | inl double ↦
                    let role = duplex_role header.role double in
                    elim (Option-cases tombs.0) [
                      | inr (code, t) ↦
                          rw (submit_tcp, e, h, double, t)
                            (reject_downlink-Sound Up Down half.writer code tombs.1 sound', tt)
                      | inl t ↦
                          rw (submit_tcp, e, h, double, t)
                            (submit_duplex-Safe Up Down session_id header target link half none
                              tombs.1
                              (subst (λ i. Brings Up Down i key metadata target half link.path) role
                                brings)
                              (subst (λ i. tcp_shape i half ≡ true) role h) sound')
                    ]
              ]
        ]
      ]

  -- Let the registry be sound, and let Up hold of the uplink that is offered with its target
  -- and Down of the downlink, for the key and the metadata of the header. Then submit_udp
  -- leaves the registry sound on every branch, does not panic, and a pair that it gives has a
  -- target and an uplink of which Up holds for that key and that metadata, a downlink of which
  -- Down holds, and the carriers of the metadata.
  pub submit_udp-Safe :
      (session_id : ℕ) (header : FlowHeader) (target : Option Target) (link : LinkHalf)
      (half : Half U D L) (now : ℕ) (r : Registry U D L)
      → UplinkIs Up Down (key_of session_id header) (metadata_of header) target half
      → DownlinkIs Up Down (key_of session_id header) (metadata_of header) half
      → Sound Up Down r
      → Safe Up Down
          (key_of session_id header)
          (metadata_of header)
          (submit_udp session_id header target link half now r)
  unfolding submit_udp
  submit_udp-Safe session_id header target link half now r up down sound =
      let key = key_of session_id header in
      let metadata = metadata_of header in
      elim (Result-cases (validate_header_and_link session_id header udp target link r)) [
        | inr (code, e) ↦
            rw (submit_udp, e) (fail_early-Safe Up Down session_id header half code now r sound)
        | inl (valid, e) ↦ elim (Bool-cases (udp_shape header.role half)) [
          | inr h ↦
              rw (submit_udp, e, h)
                (fail_early-Safe Up Down session_id header half FlowErrorCode.invalid_request now r
                  sound)
          | inl h ↦
              let fits = validated_target session_id header udp target link r e in
              let shape = udp_shape-tcp_shape Up Down header.role half h in
              let brings =
                tcp_shape-Brings Up Down header.role key metadata target half link.path fits shape
                  up down in
              elim (Bool-cases (is_attach header.role)) [
                | inl a ↦
                    rw (submit_udp, e, h, a)
                      (submit_permitted-Safe session_id header target link half none now r brings h
                        sound)
                | inr a ↦
                    rw (submit_udp, e, h, a)
                      (submit_with_permit-Safe session_id header target link half now r brings h
                        sound)
              ]
        ]
      ]
