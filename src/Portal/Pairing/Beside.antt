-- ===== src/Portal/Pairing/Beside.antt =====
-- src/portal/pairing.rs: the steps beside the claims and the tombstones.
use nowhere.Common.{ℕ, ◌+◌, ◌≡◌, refl, List, Option, none, some, Bool-cases, Option-cases, inl, inr}
use nowhere.Common.Map.{get}
use nowhere.Protocol.Flow.{FlowKind, tcp, udp, Carrier}
use nowhere.Protocol.Setup.{FlowErrorCode}
use nowhere.Portal.Pairing.{FlowKey, same_flow, LinkCounts, Pending, Registry}
use nowhere.Portal.Pairing.Claims.{same_number, drop_permit, take_permit}
use nowhere.Portal.Pairing.Reject.{pending_of, with_pending, reject_downlink}
use nowhere.Portal.Pairing.Install.{clear_stale, lost_both, keep_pending, clear_stale_halves}
use nowhere.Portal.Pairing.Links.{
  LinkStats, link_entry, register_tcp_link, install_quic_link, unlink,
}
use nowhere.Portal.Pairing.Calm.{permits_left}

module _ {U D L : Type 0} where
  -- The claims and the tombstones stay.
  pub record Aside (r s : Registry U D L) : Type 0 where
    pub claims : s.claims ≡ r.claims
    pub rejections : s.rejections ≡ r.rejections
    pub max_pending : s.max_pending ≡ r.max_pending

  pub Aside-refl : (r : Registry U D L) → Aside r r
  Aside-refl r = record { claims = refl; rejections = refl; max_pending = refl }

  pub with_pending-Aside :
      (kind : FlowKind) (m : List (FlowKey × Pending U D L)) (r : Registry U D L)
      → Aside r (with_pending kind m r)
  with_pending-Aside tcp m r = record { claims = refl; rejections = refl; max_pending = refl }
  with_pending-Aside udp m r = record { claims = refl; rejections = refl; max_pending = refl }

  keep_pending-Aside :
      (kind : FlowKind) (key : FlowKey) (p : Pending U D L) (r : Registry U D L)
      → Aside r (keep_pending kind key p r)
  keep_pending-Aside kind key p r = elim (Bool-cases (lost_both p)) [
    | inl h ↦ rw h (with_pending-Aside kind _ r)
    | inr h ↦ rw h (with_pending-Aside kind _ r)
  ]

  pub clear_stale_halves-Aside :
      (kind : FlowKind) (key : FlowKey) (active : Option ℕ) (r : Registry U D L)
      → Aside r (clear_stale_halves kind key active r)
  unfolding clear_stale_halves
  clear_stale_halves-Aside kind key active r =
      elim (Option-cases (get same_flow key (pending_of kind r))) [
        | inl e ↦ rw (clear_stale_halves, e) (Aside-refl r)
        | inr (pending, e) ↦
            rw (clear_stale_halves, e) (keep_pending-Aside kind key (clear_stale active pending) r)
      ]

  pub drop_permit-Aside : (permit : Option ℕ) (r : Registry U D L) → Aside r (drop_permit permit r)
  unfolding drop_permit
  drop_permit-Aside none r = Aside-refl r
  drop_permit-Aside (some semaphore) r = elim (Option-cases (get same_number semaphore r.permits)) [
    | inl e ↦ rw (drop_permit, e) (Aside-refl r)
    | inr (left, e) ↦
        rw (drop_permit, e) (record { claims = refl; rejections = refl; max_pending = refl })
  ]

  pub take_permit-Aside : (semaphore : ℕ) (r : Registry U D L) → Aside r (take_permit semaphore r).1
  unfolding take_permit
  take_permit-Aside semaphore r = elim (permits_left (get same_number semaphore r.permits)) [
    | inl n ↦ rw (take_permit, n) (Aside-refl r)
    | inr (inl z) ↦ rw (take_permit, z) (Aside-refl r)
    | inr (inr (left, l)) ↦
        rw (take_permit, l) (record { claims = refl; rejections = refl; max_pending = refl })
  ]

  pub reject_downlink-Aside :
      (downlink : Option D) (code : FlowErrorCode) (r : Registry U D L)
      → Aside r (reject_downlink downlink code r)
  unfolding reject_downlink
  reject_downlink-Aside none code r = Aside-refl r
  reject_downlink-Aside (some d) code r = record {
    claims = refl;
    rejections = refl;
    max_pending = refl;
  }

  link_entry-Aside : (session_id : ℕ) (r : Registry U D L) → Aside r (link_entry session_id r).1
  unfolding link_entry
  link_entry-Aside session_id r = elim (Option-cases (get same_number session_id r.links)) [
    | inl e ↦ rw (link_entry, e) (record { claims = refl; rejections = refl; max_pending = refl })
    | inr (counts, e) ↦ rw (link_entry, e) (Aside-refl r)
  ]

  pub register_tcp_link-Aside :
      (session_id : ℕ) (stats : LinkStats) (r : Registry U D L)
      → Aside r (register_tcp_link session_id r stats).1
  unfolding register_tcp_link
  register_tcp_link-Aside session_id stats r =
      let entry = link_entry-Aside session_id r in
      record {
        claims = entry.claims;
        rejections = entry.rejections;
        max_pending = entry.max_pending;
      }

  pub install_quic_link-Aside :
      (session_id : ℕ) (stats : LinkStats) (r : Registry U D L)
      → Aside r (install_quic_link session_id r stats).2
  unfolding install_quic_link
  install_quic_link-Aside session_id stats r =
      let entry =
        link_entry-Aside session_id
          (record r { next_quic_generation = r.next_quic_generation + 1 }) in
      record {
        claims = entry.claims;
        rejections = entry.rejections;
        max_pending = entry.max_pending;
      }

  pub unlink-Aside :
      (session_id : ℕ) (carrier : Carrier) (counts : LinkCounts) (stats : LinkStats)
      (r : Registry U D L)
      → Aside r (unlink session_id carrier counts r stats).0
  unfolding unlink
  unlink-Aside session_id carrier counts stats r = record {
    claims = refl;
    rejections = refl;
    max_pending = refl;
  }
