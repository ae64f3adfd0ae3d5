-- ===== src/Portal/Pairing/Steps.antt =====
-- src/portal/pairing.rs and src/portal/pairing/link.rs: the parts of the operations that run under
-- a lock, as steps of any task. Between two of them the tasks of other flows and sessions can take
-- theirs.
use nowhere.Common.{ℕ, ◌≡◌, refl, List, [], Bool, true, false, Option, arith}
use nowhere.Protocol.Flow.{FlowRole, FlowKind, Carrier}
use nowhere.Protocol.Setup.{FlowErrorCode}
use nowhere.Protocol.Target.{Target}
use nowhere.Portal.Pairing.{FlowKey, Metadata, LinkHalf, LinkCounts, Pending, Registry}
use nowhere.Portal.Pairing.Arms.{Half, arm_matches}
use nowhere.Portal.Pairing.Claims.{
  drop_permit, take_permit, reserve_claim, abandon_claim, activate_claim, finish_flow,
}
use nowhere.Portal.Pairing.Reject.{terminal_rejection, reject_downlink, take_pending, is_active}
use nowhere.Portal.Pairing.Install.{clear_stale_halves, follow_claim, place}
use nowhere.Portal.Pairing.Cancel.{
  remove_pending, cancel_token, cancel_active_quic_generation, cancel_claims, clear_pending,
  clear_rejections, retain_active,
}
use nowhere.Portal.Pairing.Links.{
  LinkStats, register_tcp_link, install_quic_link, replace_token, unlink,
}
use nowhere.Portal.Pairing.Relink.{register_tcp_link-Calm, install_quic_link-Calm, unlink-Calm}
use nowhere.Portal.Pairing.State.{Sound}
use nowhere.Portal.Pairing.Calm.{
  beside, follow_claim-Calm, terminal_rejection-Calm, take_permit-Calm, activate_claim-Calm,
  finish_flow-Calm, cancel_active-Calm,
}
use nowhere.Portal.Pairing.Halves.{
  Calm-Sound, reserve_claim-Sound, take_pending-Sound, remove_pending-Sound, reject_downlink-Sound,
  drop_permit-Sound,
}
use nowhere.Portal.Pairing.Fill.{Brings, clear_stale_halves-Sound}
use nowhere.Portal.Pairing.Pairs.{Placed-half}
use nowhere.Portal.Pairing.Ends.{
  abandon_claim-Sound, cancel_token-Sound, cancel_claims-Sound, clear_pending-Sound,
  clear_rejections-Sound, retain_active-Sound,
}

-- `PairingRegistry::new`
abbrev pub new_registry : (U D L : Type 0) → ℕ → ℕ → ℕ → Registry U D L
new_registry U D L max_pending timeout max_udp_flows = record {
  tcp = [];
  udp = [];
  links = [];
  claims = [];
  rejections = [];
  next_quic_generation = 1;
  next_epoch = 1;
  max_pending = max_pending;
  timeout = timeout;
  max_udp_flows = max_udp_flows;
  permits = [];
  next_semaphore = 0;
  cancelled = [];
  replaced = [];
  rejected = [];
}

module _ {U D L : Type 0} (Up : FlowKey → Metadata → Target → U → Type 0)
    (Down : FlowKey → Metadata → D → Type 0) where
  -- What a step leaves of a registry: one part of an operation under one lock, or one that takes
  -- none. What a task found under a lock and carries on, such as the flow that it took out, its
  -- downlink, permit or token, is any value here. The half that `places` puts was offered for its
  -- flow; its map is locked throughout, and the claims once in between.
  pub data Step : Registry U D L → Registry U D L → Type 0 where
    clears_stale :
        (kind : FlowKind) (key : FlowKey) (active : Option ℕ) (r : Registry U D L)
        → Step r (clear_stale_halves kind key active r)
    follows :
        (key : FlowKey) (p : Pending U D L) (gone : Bool) (r : Registry U D L)
        → Step r (follow_claim key p gone r)
    looks_up :
        (key : FlowKey) (consume : Bool) (now : ℕ) (r : Registry U D L)
        → Step r (terminal_rejection key consume now r).1
    reserves :
        (key : FlowKey) (metadata : Metadata) (target : Option Target) (generation : Option ℕ)
        (r : Registry U D L)
        → Step r (reserve_claim key metadata target generation r).1
    places :
        (kind : FlowKind) (key : FlowKey) (role : FlowRole) (metadata : Metadata)
        (target : Option Target) (link : LinkHalf) (half : Half U D L) (permit : Option ℕ)
        (epoch : ℕ) (r : Registry U D L)
        → arm_matches kind role half ≡ true
        → Brings Up Down role key metadata target half link.path
        → Step r (place kind key role metadata target link half permit epoch r).0
    activates :
        (key : FlowKey) (epoch : ℕ) (generations : List ℕ) (permit : Option ℕ) (r : Registry U D L)
        → Step r (activate_claim key epoch generations permit r).1
    abandons : (key : FlowKey) (epoch : ℕ) (r : Registry U D L) → Step r (abandon_claim key epoch r)
    finishes : (key : FlowKey) (epoch : ℕ) (r : Registry U D L) → Step r (finish_flow key epoch r)
    takes_permit : (semaphore : ℕ) (r : Registry U D L) → Step r (take_permit semaphore r).1
    drops_permit : (permit : Option ℕ) (r : Registry U D L) → Step r (drop_permit permit r)
    writes :
        (downlink : Option D) (code : FlowErrorCode) (r : Registry U D L)
        → Step r (reject_downlink downlink code r)
    rejects :
        (key : FlowKey) (code : FlowErrorCode) (now : ℕ) (r : Registry U D L)
        → is_active key r ≡ false
        → Step r (take_pending key code now r)
    removes :
        (kind : FlowKind) (key : FlowKey) (r : Registry U D L) → Step r (remove_pending kind key r)
    cancels : (token : ℕ) (r : Registry U D L) → Step r (cancel_token token r)
    cancels_generation :
        (session_id generation : ℕ) (r : Registry U D L)
        → Step r (cancel_active_quic_generation session_id generation r)
    cancels_claims : (r : Registry U D L) → Step r (cancel_claims r)
    clears_pending : (kind : FlowKind) (r : Registry U D L) → Step r (clear_pending kind r)
    clears_rejections : (r : Registry U D L) → Step r (clear_rejections r)
    retains : (r : Registry U D L) → Step r (retain_active r)
    links_tcp :
        (session_id : ℕ) (stats : LinkStats) (r : Registry U D L)
        → Step r (register_tcp_link session_id r stats).1
    links_quic :
        (session_id : ℕ) (stats : LinkStats) (r : Registry U D L)
        → Step r (install_quic_link session_id r stats).2
    replaces_token : (generation : ℕ) (r : Registry U D L) → Step r (replace_token generation r)
    unlinks :
        (session_id : ℕ) (carrier : Carrier) (counts : LinkCounts) (stats : LinkStats)
        (r : Registry U D L)
        → Step r (unlink session_id carrier counts r stats).0

  -- The registries that some steps lead to.
  pub data Reach (start : Registry U D L) : Registry U D L → Type 0 where
    here : Reach start start
    more : (r s : Registry U D L) → Reach start r → Step r s → Reach start s

  pub Step-Sound : (r s : Registry U D L) → Step r s → Sound Up Down r → Sound Up Down s
  Step-Sound _ _ (clears_stale kind key active r) sound =
      clear_stale_halves-Sound Up Down kind key active r sound
  Step-Sound _ _ (follows key p gone r) sound =
      Calm-Sound Up Down r _ (follow_claim-Calm key p gone r) sound
  Step-Sound _ _ (looks_up key consume now r) sound =
      Calm-Sound Up Down r _ (terminal_rejection-Calm key consume now r) sound
  Step-Sound _ _ (reserves key metadata target generation r) sound =
      reserve_claim-Sound Up Down key metadata target generation r sound
  Step-Sound _ _ (places kind key role metadata target link half permit epoch r fits brings) sound =
      (Placed-half Up Down kind key role metadata target link half permit epoch r fits brings
        sound).0
  Step-Sound _ _ (activates key epoch generations permit r) sound =
      Calm-Sound Up Down r _ (activate_claim-Calm key epoch generations permit r) sound
  Step-Sound _ _ (abandons key epoch r) sound = abandon_claim-Sound Up Down key epoch r sound
  Step-Sound _ _ (finishes key epoch r) sound =
      Calm-Sound Up Down r _ (finish_flow-Calm key epoch r) sound
  Step-Sound _ _ (takes_permit semaphore r) sound =
      Calm-Sound Up Down r _ (take_permit-Calm semaphore r) sound
  Step-Sound _ _ (drops_permit permit r) sound = drop_permit-Sound Up Down permit r sound
  Step-Sound _ _ (writes downlink code r) sound =
      reject_downlink-Sound Up Down downlink code r sound
  Step-Sound _ _ (rejects key code now r idle) sound =
      take_pending-Sound Up Down key code now r sound
  Step-Sound _ _ (removes kind key r) sound = remove_pending-Sound Up Down kind key r sound
  Step-Sound _ _ (cancels token r) sound = cancel_token-Sound Up Down token r sound
  Step-Sound _ _ (cancels_generation session_id generation r) sound =
      Calm-Sound Up Down r _ (cancel_active-Calm session_id generation r) sound
  Step-Sound _ _ (cancels_claims r) sound = cancel_claims-Sound Up Down r sound
  Step-Sound _ _ (clears_pending kind r) sound = clear_pending-Sound Up Down kind r sound
  Step-Sound _ _ (clears_rejections r) sound = clear_rejections-Sound Up Down r sound
  Step-Sound _ _ (retains r) sound = retain_active-Sound Up Down r sound
  Step-Sound _ _ (links_tcp session_id stats r) sound =
      Calm-Sound Up Down r _ (register_tcp_link-Calm session_id r stats) sound
  Step-Sound _ _ (links_quic session_id stats r) sound =
      Calm-Sound Up Down r _ (install_quic_link-Calm session_id r stats) sound
  Step-Sound _ _ (replaces_token generation r) sound =
      Calm-Sound Up Down r (replace_token generation r) (beside r _ refl refl refl refl) sound
  Step-Sound _ _ (unlinks session_id carrier counts stats r) sound =
      Calm-Sound Up Down r _ (unlink-Calm session_id carrier counts r stats) sound

  empty-Sound :
      (max_pending timeout max_udp_flows : ℕ)
      → Sound Up Down (new_registry U D L max_pending timeout max_udp_flows)
  empty-Sound max_pending timeout max_udp_flows = record {
    tcp_halves = tt;
    udp_halves = tt;
    limit = λ i. omega arith;
  }

  Steps-Sound : (start r : Registry U D L) → Reach start r → Sound Up Down start → Sound Up Down r
  Steps-Sound _ _ here sound = sound
  Steps-Sound start _ (more r s reach step) sound =
      Step-Sound r s step (Steps-Sound start r reach sound)

  -- Every registry that steps lead to from a new one is sound, where Up and Down hold of the
  -- halves that are installed: each half that waits has its path, an uplink also its target, Up or
  -- Down holds of it for its key and its metadata, and in no session more claims wait than may.
  pub Reach-Sound :
      (max_pending timeout max_udp_flows : ℕ) (r : Registry U D L)
      → Reach (new_registry U D L max_pending timeout max_udp_flows) r
      → Sound Up Down r
  Reach-Sound max_pending timeout max_udp_flows r reach =
      Steps-Sound _ r reach (empty-Sound max_pending timeout max_udp_flows)
