-- ===== src/Portal/Pairing/SubmitRuns.antt =====
-- src/portal/pairing.rs: what `submit_tcp` and `submit_udp` are made of, as runs of steps.
use nowhere.Common.{ℕ, ◌≡◌, true, false, Option, Bool-cases, Option-cases, inl, inr, Result-cases}
use nowhere.Common.Map.{get}
use nowhere.Protocol.Flow.{FlowRole, FlowKind, FlowHeader}
use nowhere.Protocol.Setup.{FlowErrorCode}
use nowhere.Protocol.Target.{Target}
use nowhere.Portal.Pairing.{FlowKey, same_flow, Metadata, LinkHalf, Pending, Registry}
use nowhere.Portal.Pairing.Arms.{Half, is_open, is_attach, arm_matches}
use nowhere.Portal.Pairing.Claims.{
  to_list, validate_current_link, active_quic_generation, reserve_claim, abandon_claim,
  activate_claim, drop_permit,
}
use nowhere.Portal.Pairing.Reject.{
  pending_of, terminal_rejection, reject_downlink, reject_flow_setup,
}
use nowhere.Portal.Pairing.Install.{
  InstallOutcome, waiting, completed, refused, unreachable, clear_stale, lost_both, follow_claim,
  clear_stale_halves, drop_stale, generations_of, install,
}
use nowhere.Portal.Pairing.Submit.{
  key_of, metadata_of, fail_early, submit_duplex, activate_pair, finish_install,
}
use nowhere.Portal.Pairing.Fill.{Brings}
use nowhere.Portal.Pairing.Steps.{
  more, clears_stale, follows, looks_up, reserves, places, activates, abandons, drops_permit,
  writes,
}
use nowhere.Portal.Pairing.Runs.{Reached, reject_flow_setup-Reach}

module _ {U D L : Type 0} (Up : FlowKey → Metadata → Target → U → Type 0)
    (Down : FlowKey → Metadata → D → Type 0) (start : Registry U D L) where
  drop_stale-Reach :
      (kind : FlowKind) (key : FlowKey) (active : Option ℕ) (r : Registry U D L)
      → Reached Up Down start r
      → Reached Up Down start (drop_stale kind key active r)
  unfolding drop_stale
  drop_stale-Reach kind key active r reach =
      elim (Option-cases (get same_flow key (pending_of kind r))) [
        | inl e ↦ rw (drop_stale, e) reach
        | inr (pending, e) ↦
            let p : Pending U D L = clear_stale active pending in
            let cleared = clear_stale_halves kind key active r in
            let followed = follow_claim key p (lost_both p) cleared in
            rw (drop_stale, e)
              (more followed _
                (more cleared followed (more r cleared reach (clears_stale kind key active r))
                  (follows key p (lost_both p) cleared))
                (drops_permit _ followed))
      ]

  pub install-Reach :
      (kind : FlowKind) (key : FlowKey) (role : FlowRole) (metadata : Metadata)
      (target : Option Target) (link : LinkHalf) (half : Half U D L) (permit : Option ℕ) (now : ℕ)
      (r : Registry U D L)
      → arm_matches kind role half ≡ true
      → Brings Up Down role key metadata target half link.path
      → Reached Up Down start r
      → Reached Up Down start (install kind key role metadata target link half permit now r).0
  unfolding install
  install-Reach kind key role metadata target link half permit now r fits brings reach =
      let active = active_quic_generation key.session_id r in
      let current : Registry U D L = drop_stale kind key active r in
      let tombs = terminal_rejection key (is_attach role) now current in
      let told : Reached Up Down start tombs.1 =
        more current tombs.1 (drop_stale-Reach kind key active r reach)
          (looks_up key (is_attach role) now current) in
      let reserved = reserve_claim key metadata target link.quic_generation tombs.1 in
      let held : Reached Up Down start reserved.1 =
        more tombs.1 reserved.1 told (reserves key metadata target link.quic_generation tombs.1) in
      elim (Result-cases (validate_current_link key.session_id link r)) [
        | inr (code, e) ↦ rw (install, e) (more r _ reach (drops_permit permit r))
        | inl (ok_link, e) ↦ elim (Option-cases tombs.0) [
          | inr (code, t) ↦ rw (install, e, t) (more tombs.1 _ told (drops_permit permit tombs.1))
          | inl t ↦ elim (Result-cases reserved.0) [
            | inr (code, f) ↦
                rw (install, e, t, f) (more reserved.1 _ held (drops_permit permit reserved.1))
            | inl ((epoch, created), f) ↦
                rw (install, e, t, f)
                  (more reserved.1 _ held (
                    places kind key role metadata target link half permit epoch reserved.1 fits
                      brings))
          ]
        ]
      ]

  activate_pair-Reach :
      (key : FlowKey) (p : Pending U D L) (r : Registry U D L)
      → Reached Up Down start r
      → Reached Up Down start (activate_pair key p r).0
  unfolding activate_pair
  activate_pair-Reach key p r reach =
      let activated = activate_claim key p.epoch (generations_of p) p.flow_permit r in
      let begun : Reached Up Down start activated.1 =
        more r activated.1 reach (activates key p.epoch (generations_of p) p.flow_permit r) in
      let abandoned = abandon_claim key p.epoch activated.1 in
      let freed = drop_permit p.flow_permit abandoned in
      elim (Result-cases activated.0) [
        | inl (lease, e) ↦ rw (activate_pair, e) begun
        | inr (code, e) ↦
            rw (activate_pair, e)
              (more freed _
                (more abandoned freed
                  (more activated.1 abandoned begun (abandons key p.epoch activated.1))
                  (drops_permit p.flow_permit abandoned))
                (writes p.downlink code freed))
      ]

  pub finish_install-Reach :
      (key : FlowKey) (now : ℕ) (x : Registry U D L × InstallOutcome U D L)
      → Reached Up Down start x.0
      → Reached Up Down start (finish_install key now x).0
  unfolding finish_install
  finish_install-Reach key now (r, waiting epoch) reach = reach
  finish_install-Reach key now (r, completed p) reach = activate_pair-Reach key p r reach
  finish_install-Reach key now (r, unreachable) reach = reach
  finish_install-Reach key now (r, refused code downlink false) reach =
      more r _ reach (writes downlink code r)
  finish_install-Reach key now (r, refused code downlink true) reach =
      more (reject_flow_setup key.session_id key.flow_id code now r) _
        (reject_flow_setup-Reach Up Down start key.session_id key.flow_id code now r reach)
        (writes downlink code (reject_flow_setup key.session_id key.flow_id code now r))

  pub fail_early-Reach :
      (session_id : ℕ) (header : FlowHeader) (half : Half U D L) (code : FlowErrorCode) (now : ℕ)
      (r : Registry U D L)
      → Reached Up Down start r
      → Reached Up Down start (fail_early session_id header half code now r).0
  unfolding fail_early
  fail_early-Reach session_id header half code now r reach =
      let rejected = reject_flow_setup session_id header.flow_id code now r in
      elim (Bool-cases (is_open header.role)) [
        | inl h ↦
            rw (fail_early, h)
              (more rejected _
                (reject_flow_setup-Reach Up Down start session_id header.flow_id code now r reach)
                (writes half.writer code rejected))
        | inr h ↦ rw (fail_early, h) (more r _ reach (writes half.writer code r))
      ]

  pub submit_duplex-Reach :
      (session_id : ℕ) (header : FlowHeader) (target : Option Target) (link : LinkHalf)
      (half : Half U D L) (permit : Option ℕ) (r : Registry U D L)
      → Reached Up Down start r
      → Reached Up Down start (submit_duplex session_id header target link half permit r).0
  unfolding submit_duplex
  submit_duplex-Reach session_id header target link half permit r reach =
      let key = key_of session_id header in
      let reserved = reserve_claim key (metadata_of header) target link.quic_generation r in
      let held : Reached Up Down start reserved.1 =
        more r reserved.1 reach (reserves key (metadata_of header) target link.quic_generation r) in
      let fail : (code : FlowErrorCode) (s : Registry U D L)
          → Reached Up Down start s
          → Reached Up Down start (drop_permit permit (reject_downlink half.writer code s)) =
        λ code s a.
          more (reject_downlink half.writer code s) _ (more s _ a (writes half.writer code s))
            (drops_permit permit (reject_downlink half.writer code s)) in
      elim (Result-cases reserved.0) [
        | inr (code, e) ↦ rw (submit_duplex, e) (fail code _ held)
        | inl ((epoch, false), e) ↦
            rw (submit_duplex, e) (fail FlowErrorCode.metadata_conflict _ held)
        | inl ((epoch, true), e) ↦
            let generations = to_list link.quic_generation in
            let activated = activate_claim key epoch generations permit reserved.1 in
            let begun : Reached Up Down start activated.1 =
              more reserved.1 activated.1 held
                (activates key epoch generations permit reserved.1) in
            elim (Result-cases activated.0) [
              | inl (lease, f) ↦ rw (submit_duplex, e, f) begun
              | inr (code, f) ↦
                  rw (submit_duplex, e, f)
                    (fail code _ (more activated.1 _ begun (abandons key epoch activated.1)))
            ]
      ]
