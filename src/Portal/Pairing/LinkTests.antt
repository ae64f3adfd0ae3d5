-- ===== src/Portal/Pairing/LinkTests.antt =====
-- Carriers of one session, a flow that QUIC carries, and a flow that is rejected.
use nowhere.Common.{ℕ, ◌≡◌, refl, [], ◌∷◌, true, Option, none, some, ok, arith, false, length, ◌<◌}
use nowhere.Protocol.Flow.{tcp, quic}
use nowhere.Protocol.Setup.{FlowErrorCode}
use nowhere.Protocol.Target.{Target, domain}
use nowhere.Portal.Pairing.{FlowKey, Metadata, FlowLease, Registry}
use nowhere.Portal.Pairing.Claims.{
  drop_permit, contains_generation, active_quic_generation, reserve_claim, activate_claim,
}
use nowhere.Portal.Pairing.Reject.{
  take_pending, is_active, add_tombstone, reject_downlink, terminal_rejection, reject_flow_setup,
}
use nowhere.Portal.Pairing.Cancel.{replace_quic_generation}
use nowhere.Portal.Pairing.Links.{
  LinkStats, LinkGuard, link_entry, register_tcp_link, install_quic_link, drop_link,
}
use nowhere.Portal.Pairing.LeaseCancel.{at_once, later, lease-cancelled}
use nowhere.Portal.Pairing.LinkCount.{Counted, tls_guards}
use nowhere.Portal.Pairing.LinkSums.{tcp_of, number_of}
use nowhere.Portal.Pairing.LinkSteps.{starts, connects_tcp, connects_quic, drops, LinkReach-sums}
use nowhere.Portal.Pairing.Tombstones.{Bounded, reject_flow_setup-Bounded}
use nowhere.Portal.Pairing.TombstoneLookup.{straight, further, reject_flow_setup-terminal_rejection}
use nowhere.Portal.Pairing.Steps.{new_registry, reserves, rejects}

abbrev empty : Registry ℕ ℕ ℕ
empty = new_registry ℕ ℕ ℕ 4 10 2

abbrev no_links : LinkStats
no_links = record { link_tcp = 0; link_udp = 0; link_pairs = 0 }

abbrev flow : FlowKey
flow = record { session_id = 3; flow_id = 5 }

abbrev over_quic : Metadata
over_quic = record { kind = tcp; uplink = quic; downlink = quic }

abbrev first : LinkGuard × Registry ℕ ℕ ℕ × LinkStats
first = register_tcp_link 3 empty no_links

abbrev second : LinkGuard × Option ℕ × Registry ℕ ℕ ℕ × LinkStats
second = install_quic_link 3 first.1 first.2

abbrev claimed : Registry ℕ ℕ ℕ
claimed = (reserve_claim flow over_quic (some (domain (97 ∷ []) 443)) (some 1) second.2).1

abbrev lease : FlowLease
lease = record { key = flow; epoch = 1; cancel = 1; udp_permit = none }

lease_given : (activate_claim flow 1 (1 ∷ []) none claimed).0 ≡ ok lease
unfolding activate_claim active_quic_generation reserve_claim install_quic_link register_tcp_link
    link_entry
lease_given = refl

-- Another flow is reserved before the carrier is replaced.
abbrev begun : Registry ℕ ℕ ℕ
begun = (activate_claim flow 1 (1 ∷ []) none claimed).1

abbrev other_flow : FlowKey
other_flow = record { session_id = 3; flow_id = 6 }

abbrev crowded : Registry ℕ ℕ ℕ
crowded = (reserve_claim other_flow over_quic none (some 1) begun).1

abbrev Whatever : FlowKey → Metadata → Target → ℕ → Type 0
Whatever key metadata target u = Unit {0}

abbrev Anything : FlowKey → Metadata → ℕ → Type 0
Anything key metadata d = Unit {0}

lease-cancelled_example :
    contains_generation 1 (replace_quic_generation 3 1 7 crowded).cancelled ≡ true
lease-cancelled_example =
    lease-cancelled Whatever Anything flow 1 (1 ∷ []) none claimed crowded lease 1 7 lease_given
      (later begun crowded at_once (reserves other_flow over_quic none (some 1) begun) tt) refl

-- The TLS carrier ends, and the QUIC carrier stays.
abbrev third : Registry ℕ ℕ ℕ × LinkStats
third = drop_link first.0 second.2 second.3

LinkReach-sums_example :
    Counted third.0 third.1
    × ((i : ℕ) → number_of tcp_of i third.0.links ≡ tls_guards i (second.0 ∷ []))
LinkReach-sums_example = LinkReach-sums empty (second.0 ∷ []) third.0 third.1 refl (
    drops (second.0 ∷ []) [] first.0 second.2 second.3
      (connects_quic 3 (first.0 ∷ []) first.1 first.2 (connects_tcp 3 [] empty no_links starts)))

reject_flow_setup-Bounded_example :
    Bounded (reject_flow_setup 3 5 FlowErrorCode.pair_timeout 7 empty)
reject_flow_setup-Bounded_example =
    reject_flow_setup-Bounded 3 5 FlowErrorCode.pair_timeout 7 empty (omega arith, omega arith)

-- Another flow is rejected in between.
abbrev one_rejected : Registry ℕ ℕ ℕ
one_rejected = reject_flow_setup 3 5 FlowErrorCode.pair_timeout 7 empty

abbrev two_rejected : Registry ℕ ℕ ℕ
two_rejected = take_pending other_flow FlowErrorCode.pair_timeout 8 one_rejected

other_idle : is_active other_flow one_rejected ≡ false
unfolding reject_flow_setup take_pending add_tombstone reject_downlink drop_permit
other_idle = refl

has_room : length one_rejected.rejections < one_rejected.max_pending
unfolding reject_flow_setup take_pending add_tombstone reject_downlink drop_permit
has_room = omega arith

reject_flow_setup-terminal_rejection_example :
    (terminal_rejection flow true 9 two_rejected).0 ≡ some FlowErrorCode.pair_timeout
reject_flow_setup-terminal_rejection_example =
    reject_flow_setup-terminal_rejection Whatever Anything flow FlowErrorCode.pair_timeout 7 9 true
      empty two_rejected refl refl
      (further one_rejected two_rejected straight
        (rejects other_flow FlowErrorCode.pair_timeout 8 one_rejected other_idle)
        (omega arith, refl, has_room))
      (omega arith)
