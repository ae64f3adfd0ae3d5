-- ===== src/Portal/Pairing/Operations.antt =====
-- src/portal/pairing.rs and src/portal/pairing/link.rs: all operations on the registry as runs of
-- the steps of their parts.
use nowhere.Common.{ℕ, Option, none, some, Bool-cases, Option-cases, inl, inr}
use nowhere.Common.Map.{get}
use nowhere.Protocol.Flow.{FlowKind, FlowHeader, Carrier, tls_tcp, quic}
use nowhere.Protocol.Setup.{FlowErrorCode}
use nowhere.Protocol.Target.{Target}
use nowhere.Portal.Pairing.{
  FlowKey, Metadata, LinkHalf, LinkCounts, FlowLease, Registry, same_generation,
}
use nowhere.Portal.Pairing.Arms.{Half}
use nowhere.Portal.Pairing.Claims.{same_number}
use nowhere.Portal.Pairing.Reject.{reject_flow_setup}
use nowhere.Portal.Pairing.Cancel.{
  time_out, cancel_udp, drop_lease, replace_quic_generation, cancel_all,
}
use nowhere.Portal.Pairing.Links.{
  LinkStats, LinkGuard, register_tcp_link, install_quic_link, replace_token, register_quic_link,
  unlink, cancel_generation, drop_counted, drop_link,
}
use nowhere.Portal.Pairing.Relink.{carriers}
use nowhere.Portal.Pairing.Submit.{key_of, metadata_of, submit_tcp, submit_udp}
use nowhere.Portal.Pairing.Shapes.{UplinkIs, DownlinkIs}
use nowhere.Portal.Pairing.Steps.{more, links_quic, replaces_token, unlinks, cancels_generation}
use nowhere.Portal.Pairing.Runs.{Reached, replace_quic_generation-Reach}

module _ {U D L : Type 0} (Up : FlowKey → Metadata → Target → U → Type 0)
    (Down : FlowKey → Metadata → D → Type 0) (start : Registry U D L) where
  pub register_quic_link-Reach :
      (session_id now : ℕ) (r : Registry U D L) (stats : LinkStats)
      → Reached Up Down start r
      → Reached Up Down start (register_quic_link session_id now r stats).1
  unfolding register_quic_link
  register_quic_link-Reach session_id now r stats reach =
      let installed = install_quic_link session_id r stats in
      let s : Registry U D L = installed.2 in
      let linked : Reached Up Down start s = more r s reach (links_quic session_id stats r) in
      elim (Option-cases installed.1) [
        | inl e ↦ rw (register_quic_link, e) linked
        | inr (generation, e) ↦
            rw (register_quic_link, e)
              (replace_quic_generation-Reach Up Down start session_id generation now
                (replace_token generation s) (more s _ linked (replaces_token generation s)))
      ]

  cancel_generation-Reach :
      (session_id : ℕ) (generation : Option ℕ) (r : Registry U D L)
      → Reached Up Down start r
      → Reached Up Down start (cancel_generation session_id generation r)
  cancel_generation-Reach session_id none r reach = reach
  cancel_generation-Reach session_id (some generation) r reach =
      more r _ reach (cancels_generation session_id generation r)

  unlinked-Reach :
      (session_id : ℕ) (carrier : Carrier) (counts : LinkCounts) (generation : Option ℕ)
      (r : Registry U D L) (stats : LinkStats)
      → Reached Up Down start r
      → Reached Up Down start
          (cancel_generation session_id generation (unlink session_id carrier counts r stats).0)
  unlinked-Reach session_id carrier counts generation r stats reach =
      let s = (unlink session_id carrier counts r stats).0 in
      cancel_generation-Reach session_id generation s
        (more r s reach (unlinks session_id carrier counts stats r))

  drop_counted-Reach :
      (guard : LinkGuard) (counts : LinkCounts) (r : Registry U D L) (stats : LinkStats)
      → Reached Up Down start r
      → Reached Up Down start (drop_counted guard counts r stats).0
  unfolding drop_counted
  drop_counted-Reach guard counts r stats reach = elim (carriers guard.carrier) [
    | inl c ↦
        rw (drop_counted, c)
          (unlinked-Reach guard.session_id tls_tcp counts guard.quic_generation r stats reach)
    | inr c ↦ elim (Option-cases guard.quic_generation) [
      | inl n ↦ rw (drop_counted, c, n) reach
      | inr (g, e) ↦ elim (Bool-cases (same_generation counts.udp (some g))) [
        | inl h ↦
            rw (drop_counted, c, e, h)
              (unlinked-Reach guard.session_id quic counts (some g) r stats reach)
        | inr h ↦
            rw (drop_counted, c, e, h) (cancel_generation-Reach guard.session_id (some g) r reach)
      ]
    ]
  ]

  pub drop_link-Reach :
      (guard : LinkGuard) (r : Registry U D L) (stats : LinkStats)
      → Reached Up Down start r
      → Reached Up Down start (drop_link guard r stats).0
  unfolding drop_link
  drop_link-Reach guard r stats reach =
      elim (Option-cases (get same_number guard.session_id r.links)) [
        | inl e ↦
            rw (drop_link, e)
              (cancel_generation-Reach guard.session_id guard.quic_generation r reach)
        | inr (counts, e) ↦ rw (drop_link, e) (drop_counted-Reach guard counts r stats reach)
      ]

module _ {U D L : Type 0} (Up : FlowKey → Metadata → Target → U → Type 0)
    (Down : FlowKey → Metadata → D → Type 0) where
  -- The operations that the tasks of the portal call, from their start to their end. What a
  -- submission brings is offered for its flow.
  pub data Operation : Registry U D L → Registry U D L → Type 0 where
    tcp_submission :
        (session_id : ℕ) (header : FlowHeader) (target : Option Target) (link : LinkHalf)
        (half : Half U D L) (now : ℕ) (r : Registry U D L)
        → UplinkIs Up Down (key_of session_id header) (metadata_of header) target half
        → DownlinkIs Up Down (key_of session_id header) (metadata_of header) half
        → Operation r (submit_tcp session_id header target link half now r).0
    udp_submission :
        (session_id : ℕ) (header : FlowHeader) (target : Option Target) (link : LinkHalf)
        (half : Half U D L) (now : ℕ) (r : Registry U D L)
        → UplinkIs Up Down (key_of session_id header) (metadata_of header) target half
        → DownlinkIs Up Down (key_of session_id header) (metadata_of header) half
        → Operation r (submit_udp session_id header target link half now r).0
    rejection :
        (session_id flow_id : ℕ) (code : FlowErrorCode) (now : ℕ) (r : Registry U D L)
        → Operation r (reject_flow_setup session_id flow_id code now r)
    timeout :
        (kind : FlowKind) (key : FlowKey) (epoch now : ℕ) (r : Registry U D L)
        → Operation r (time_out kind key epoch now r)
    cancellation :
        (session_id flow_id : ℕ) (r : Registry U D L)
        → Operation r (cancel_udp session_id flow_id r)
    lease_end : (lease : FlowLease) (r : Registry U D L) → Operation r (drop_lease lease r)
    replacement :
        (session_id generation now : ℕ) (r : Registry U D L)
        → Operation r (replace_quic_generation session_id generation now r)
    shutdown : (r : Registry U D L) → Operation r (cancel_all r)
    tcp_link :
        (session_id : ℕ) (stats : LinkStats) (r : Registry U D L)
        → Operation r (register_tcp_link session_id r stats).1
    quic_link :
        (session_id now : ℕ) (stats : LinkStats) (r : Registry U D L)
        → Operation r (register_quic_link session_id now r stats).1
    link_end :
        (guard : LinkGuard) (stats : LinkStats) (r : Registry U D L)
        → Operation r (drop_link guard r stats).0
