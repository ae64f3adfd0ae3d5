-- ===== src/Portal/Pairing/LeaseCancel.antt =====
-- src/portal/pairing.rs: what is cancelled where the QUIC carrier of a lease is replaced, whatever
-- the other tasks do in between.
use nowhere.Common.{
  ℕ, ◌≡◌, refl, sym, subst, List, Bool, true, false, not, ◌&&◌, Option, Bool-cases, inl, inr, ok,
}
use nowhere.Common.Map.{get}
use nowhere.Common.MapKeep.{get-keep}
use nowhere.Protocol.Setup.{FlowErrorCode}
use nowhere.Protocol.Target.{Target}
use nowhere.Portal.Pairing.{FlowKey, same_flow, Metadata, FlowLease, Registry}
use nowhere.Portal.Pairing.Claims.{is_some, contains_generation, activate_claim}
use nowhere.Portal.Pairing.Reject.{
  is_active, downlink_of, terminal_rejection, add_tombstone, take_pending,
}
use nowhere.Portal.Pairing.Cancel.{
  tokens_of, cancel_active_quic_generation, replace_quic_generation, retain_active,
}
use nowhere.Portal.Pairing.State.{same_flow_eq}
use nowhere.Portal.Pairing.Generations.{
  get-tokens_of, contains-append, replace_quic_generation-cancelled, activate_claim-get,
}
use nowhere.Portal.Pairing.Beside.{
  with_pending-Aside, clear_stale_halves-Aside, drop_permit-Aside, take_permit-Aside,
  reject_downlink-Aside, register_tcp_link-Aside, install_quic_link-Aside, unlink-Aside,
}
use nowhere.Portal.Pairing.Lease.{
  removed_other, Leased, same_entry, Aside-Leased, follow_claim-Leased, reserve_claim-Leased,
  abandon_claim-Leased, finish_flow-Leased, activate_claim-Leased, place-Leased,
}
use nowhere.Portal.Pairing.Steps.{
  Step, clears_stale, follows, looks_up, reserves, places, activates, abandons, finishes,
  takes_permit, drops_permit, writes, rejects, removes, cancels, cancels_generation, cancels_claims,
  clears_pending, clears_rejections, retains, links_tcp, links_quic, replaces_token, unlinks,
}

module _ {U D L : Type 0} (key : FlowKey) (generations : List ℕ) (token : ℕ) where
  looked_up :
      (k : FlowKey) (consume : Bool) (now : ℕ) (r : Registry U D L)
      → get same_flow key (terminal_rejection k consume now r).1.claims ≡ get same_flow key r.claims
  unfolding terminal_rejection
  looked_up k consume now r = refl

  cancelled_generation :
      (session_id generation : ℕ) (r : Registry U D L)
      → Leased key generations token r
      → Leased key generations token (cancel_active_quic_generation session_id generation r)
  unfolding cancel_active_quic_generation
  cancelled_generation session_id generation r l = same_entry key generations token r _ refl l

  take_pending-Leased :
      (k : FlowKey) (code : FlowErrorCode) (now : ℕ) (r : Registry U D L)
      → is_active k r ≡ false
      → Leased key generations token r
      → Leased key generations token (take_pending k code now r)
  unfolding take_pending add_tombstone
  take_pending-Leased k code now r idle l = elim (Bool-cases (same_flow k key)) [
    | inl h ↦
        let same : k ≡ key = same_flow_eq k key h in
        let there : is_active key r ≡ true = rw (is_active, l.found) (l.active) in
        let no : is_active key r ≡ false = subst (λ i. is_active i r ≡ false) same idle in cc
    | inr h ↦
        elim (Bool-cases (
          not (is_some (downlink_of (get same_flow k r.tcp)))
          && not (is_some (downlink_of (get same_flow k r.udp))))) [
            | inl t ↦
                rw (take_pending, t)
                  (same_entry key generations token r _ (removed_other k key r.claims h) l)
            | inr t ↦
                rw (take_pending, t)
                  (same_entry key generations token r _ (removed_other k key r.claims h) l)
          ]
  ]

  retain_active-Leased :
      (r : Registry U D L)
      → Leased key generations token r
      → Leased key generations token (retain_active r)
  retain_active-Leased r l = record {
    claim = l.claim;
    found =
        get-keep same_flow same_flow_eq key l.claim (λ k claim. claim.active) r.claims l.found
          l.active;
    active = l.active;
    carried = l.carried;
    cancel = l.cancel;
  }

module _ {U D L : Type 0} (Up : FlowKey → Metadata → Target → U → Type 0)
    (Down : FlowKey → Metadata → D → Type 0) (key : FlowKey) where
  -- All steps but the end of the flow's claim and another activation of the flow.
  abbrev pub Spares : (r s : Registry U D L) → Step Up Down r s → Type 0
  Spares _ _ (activates k epoch generations permit r) = same_flow k key ≡ false
  Spares _ _ (finishes k epoch r) = same_flow k key ≡ false
  Spares _ _ _ = Unit {0}

  -- The registries that such steps lead to.
  pub data Meanwhile (start : Registry U D L) : Registry U D L → Type 0 where
    at_once : Meanwhile start start
    later :
        (r s : Registry U D L)
        → Meanwhile start r
        → (step : Step Up Down r s) → Spares r s step
        → Meanwhile start s

  Step-Leased :
      (generations : List ℕ) (token : ℕ) (r s : Registry U D L) (step : Step Up Down r s)
      → Spares r s step
      → Leased key generations token r
      → Leased key generations token s
  Step-Leased generations token _ _ (clears_stale kind k active r) spares l =
      Aside-Leased key generations token r _ (clear_stale_halves-Aside kind k active r) l
  Step-Leased generations token _ _ (follows k p gone r) spares l =
      follow_claim-Leased key generations token k p gone r l
  Step-Leased generations token _ _ (looks_up k consume now r) spares l =
      same_entry key generations token r _ (looked_up key generations token k consume now r) l
  Step-Leased generations token _ _ (reserves k metadata target generation r) spares l =
      reserve_claim-Leased key generations token k metadata target generation r l
  Step-Leased generations token _ _
        (places kind k role metadata target link half permit epoch r fits brings) spares l =
      place-Leased key generations token kind k role metadata target link half permit epoch r l
  Step-Leased generations token _ _ (activates k epoch gs permit r) spares l =
      activate_claim-Leased key generations token k epoch gs permit r spares l
  Step-Leased generations token _ _ (abandons k epoch r) spares l =
      abandon_claim-Leased key generations token k epoch r l
  Step-Leased generations token _ _ (finishes k epoch r) spares l =
      finish_flow-Leased key generations token k epoch r spares l
  Step-Leased generations token _ _ (takes_permit semaphore r) spares l =
      Aside-Leased key generations token r _ (take_permit-Aside semaphore r) l
  Step-Leased generations token _ _ (drops_permit permit r) spares l =
      Aside-Leased key generations token r _ (drop_permit-Aside permit r) l
  Step-Leased generations token _ _ (writes downlink code r) spares l =
      Aside-Leased key generations token r _ (reject_downlink-Aside downlink code r) l
  Step-Leased generations token _ _ (rejects k code now r idle) spares l =
      take_pending-Leased key generations token k code now r idle l
  Step-Leased generations token _ _ (removes kind k r) spares l =
      Aside-Leased key generations token r _ (with_pending-Aside kind _ r) l
  Step-Leased generations token _ _ (cancels t r) spares l =
      same_entry key generations token r _ refl l
  Step-Leased generations token _ _ (cancels_generation session_id generation r) spares l =
      cancelled_generation key generations token session_id generation r l
  Step-Leased generations token _ _ (cancels_claims r) spares l =
      same_entry key generations token r _ refl l
  Step-Leased generations token _ _ (clears_pending kind r) spares l =
      Aside-Leased key generations token r _ (with_pending-Aside kind _ r) l
  Step-Leased generations token _ _ (clears_rejections r) spares l =
      same_entry key generations token r _ refl l
  Step-Leased generations token _ _ (retains r) spares l =
      retain_active-Leased key generations token r l
  Step-Leased generations token _ _ (links_tcp session_id stats r) spares l =
      Aside-Leased key generations token r _ (register_tcp_link-Aside session_id stats r) l
  Step-Leased generations token _ _ (links_quic session_id stats r) spares l =
      Aside-Leased key generations token r _ (install_quic_link-Aside session_id stats r) l
  Step-Leased generations token _ _ (replaces_token generation r) spares l =
      same_entry key generations token r _ refl l
  Step-Leased generations token _ _ (unlinks session_id carrier counts stats r) spares l =
      Aside-Leased key generations token r _ (unlink-Aside session_id carrier counts stats r) l

  Meanwhile-Leased :
      (generations : List ℕ) (token : ℕ) (r s : Registry U D L)
      → Meanwhile r s
      → Leased key generations token r
      → Leased key generations token s
  Meanwhile-Leased generations token _ _ at_once l = l
  Meanwhile-Leased generations token start _ (later r s before step spares) l =
      Step-Leased generations token r s step spares
        (Meanwhile-Leased generations token start r before l)

  -- Let activate_claim give a lease with some generations, and let any steps of any tasks follow,
  -- but no end of a claim of that flow and no other activation of that flow. Replacing one of the
  -- generations of the lease then cancels the token of the lease.
  pub lease-cancelled :
      (epoch : ℕ) (generations : List ℕ) (permit : Option ℕ) (r s : Registry U D L)
      (lease : FlowLease) (generation now : ℕ)
      → (activate_claim key epoch generations permit r).0 ≡ ok lease
      → Meanwhile (activate_claim key epoch generations permit r).1 s
      → contains_generation generation generations ≡ true
      → contains_generation lease.cancel
          (replace_quic_generation key.session_id generation now s).cancelled
        ≡ true
  lease-cancelled epoch generations permit r s lease generation now e meanwhile c =
      let begun = (activate_claim key epoch generations permit r).1 in
      let (claim, found, active, carried, token) =
        activate_claim-get key epoch generations permit r lease e in
      let first : Leased key generations lease.cancel begun = record {
        claim = claim;
        found = found;
        active = active;
        carried = carried;
        cancel = token;
      } in
      let l = Meanwhile-Leased generations lease.cancel begun s meanwhile first in
      let among : contains_generation l.claim.cancel (tokens_of key.session_id generation s.claims)
          ≡ true =
        get-tokens_of key generation s.claims l.claim l.found l.active
          (subst (λ gs. contains_generation generation gs ≡ true) (sym l.carried) c) in
      subst
        (λ t.
          contains_generation t (replace_quic_generation key.session_id generation now s).cancelled
          ≡ true)
        l.cancel
        (rw (replace_quic_generation-cancelled key.session_id generation now s) (
          contains-append l.claim.cancel s.cancelled (tokens_of key.session_id generation s.claims)
            among))
