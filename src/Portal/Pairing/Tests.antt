-- ===== src/Portal/Pairing/Tests.antt =====
-- The registry of flows on one flow, whose uplink is the number 7 and whose downlink is 9.
use nowhere.Common.{ℕ, ◌≡◌, refl, [], ◌∷◌, Bool, true, false, Option, none, some}
use nowhere.Protocol.Flow.{FlowRole, open_half, attach, FlowKind, tcp, udp, tls_tcp, FlowHeader}
use nowhere.Protocol.Target.{Target, domain}
use nowhere.Portal.Pairing.{FlowKey, Metadata, LinkHalf, LinkPath, Registry}
use nowhere.Portal.Pairing.Arms.{Half, fill}
use nowhere.Portal.Pairing.Claims.{
  drop_permit, validate_header_and_link, validate_current_link, active_quic_generation,
  reserve_claim, refresh_claim, activate_claim,
}
use nowhere.Portal.Pairing.Reject.{terminal_rejection}
use nowhere.Portal.Pairing.Install.{clear_stale_halves, install, drop_stale, place, meet, settle}
use nowhere.Portal.Pairing.Links.{LinkStats, link_entry, register_tcp_link}
use nowhere.Portal.Pairing.Submit.{
  Submitted, paired, submit_tcp, submit_udp, key_of, metadata_of, finish_install, activate_pair,
  paired_of,
}
use nowhere.Portal.Pairing.State.{Sound}
use nowhere.Portal.Pairing.Offers.{Safe}
use nowhere.Portal.Pairing.Shapes.{UplinkIs, DownlinkIs}
use nowhere.Portal.Pairing.Meet.{submit_tcp-Safe, submit_udp-Safe}
use nowhere.Portal.Pairing.Steps.{
  new_registry, Reach, here, more, links_tcp, reserves, places, Reach-Sound,
}

abbrev site : Target
site = domain (97 ∷ 98 ∷ []) 443

abbrev path : LinkPath
path = record { peer = 1 ∷ []; local = 2 ∷ [] }

abbrev link : LinkHalf
link = record { path = path; quic_generation = none }

abbrev header : FlowRole → FlowKind → FlowHeader
header role kind = record {
  role = role;
  kind = kind;
  flow_id = 5;
  uplink = tls_tcp;
  downlink = tls_tcp;
}

abbrev uplink : Half ℕ ℕ ℕ
uplink = record { reader = some 7; writer = none; liveness = none }

abbrev downlink : Half ℕ ℕ ℕ
downlink = record { reader = none; writer = some 9; liveness = some 1 }

abbrev Seven : FlowKey → Metadata → Target → ℕ → Type 0
Seven key metadata target u = (key.flow_id ≡ 5) × (target ≡ site) × (u ≡ 7)

abbrev Nine : FlowKey → Metadata → ℕ → Type 0
Nine key metadata d = (key.flow_id ≡ 5) × (d ≡ 9)

abbrev stats : LinkStats
stats = record { link_tcp = 0; link_udp = 0; link_pairs = 0 }

abbrev linked : Registry ℕ ℕ ℕ
linked = (register_tcp_link 3 (new_registry ℕ ℕ ℕ 4 10 2) stats).1

linked_reached : Reach Seven Nine (new_registry ℕ ℕ ℕ 4 10 2) linked
linked_reached = more _ linked here (links_tcp 3 stats (new_registry ℕ ℕ ℕ 4 10 2))

linked-Sound : Sound Seven Nine linked
linked-Sound = Reach-Sound Seven Nine 4 10 2 linked linked_reached

some_number : (a b : ℕ) → ◌≡◌ {A = Option ℕ} (some a) (some b) → b ≡ a
some_number a b e = cc

offered_uplink :
    (kind : FlowKind) (role : FlowRole)
    → UplinkIs Seven Nine
        (key_of 3 (header role kind))
        (metadata_of (header role kind))
        (some site)
        uplink
offered_uplink kind role t u e f = (refl, cc, some_number 7 u f)

no_downlink :
    (kind : FlowKind) (role : FlowRole)
    → DownlinkIs Seven Nine (key_of 3 (header role kind)) (metadata_of (header role kind)) uplink
no_downlink kind role d e = cc

offered_downlink :
    (kind : FlowKind) (role : FlowRole)
    → DownlinkIs Seven Nine (key_of 3 (header role kind)) (metadata_of (header role kind)) downlink
offered_downlink kind role d e = (refl, some_number 9 d e)

no_uplink :
    (kind : FlowKind) (role : FlowRole)
    → UplinkIs Seven Nine
        (key_of 3 (header role kind))
        (metadata_of (header role kind))
        none
        downlink
no_uplink kind role t u e f = cc

-- The registry behind the OPEN half.
abbrev tcp_waits : Registry ℕ ℕ ℕ
tcp_waits = (submit_tcp 3 (header open_half tcp) (some site) link uplink 0 linked).0

abbrev udp_waits : Registry ℕ ℕ ℕ
udp_waits = (submit_udp 3 (header open_half udp) (some site) link uplink 0 linked).0

tcp_waits-Sound : Sound Seven Nine tcp_waits
tcp_waits-Sound =
    (submit_tcp-Safe Seven Nine 3 (header open_half tcp) (some site) link uplink 0 linked
      (offered_uplink tcp open_half) (no_downlink tcp open_half) linked-Sound).0

udp_waits-Sound : Sound Seven Nine udp_waits
udp_waits-Sound =
    (submit_udp-Safe Seven Nine 3 (header open_half udp) (some site) link uplink 0 linked
      (offered_uplink udp open_half) (no_downlink udp open_half) linked-Sound).0

submit_tcp-Safe_example :
    Safe Seven Nine
      (key_of 3 (header attach tcp))
      (metadata_of (header attach tcp))
      (submit_tcp 3 (header attach tcp) none link downlink 1 tcp_waits)
submit_tcp-Safe_example =
    submit_tcp-Safe Seven Nine 3 (header attach tcp) none link downlink 1 tcp_waits
      (no_uplink tcp attach) (offered_downlink tcp attach) tcp_waits-Sound

submit_udp-Safe_example :
    Safe Seven Nine
      (key_of 3 (header attach udp))
      (metadata_of (header attach udp))
      (submit_udp 3 (header attach udp) none link downlink 1 udp_waits)
submit_udp-Safe_example =
    submit_udp-Safe Seven Nine 3 (header attach udp) none link downlink 1 udp_waits
      (no_uplink udp attach) (offered_downlink udp attach) udp_waits-Sound

abbrev is_pair : Submitted ℕ ℕ ℕ → Bool
is_pair (paired p) = true
is_pair _ = false

tcp_meets : is_pair (submit_tcp 3 (header attach tcp) none link downlink 1 tcp_waits).1 ≡ true
unfolding submit_tcp validate_header_and_link validate_current_link active_quic_generation
    register_tcp_link link_entry install drop_stale terminal_rejection reserve_claim place meet fill
    settle refresh_claim finish_install activate_pair activate_claim paired_of drop_permit
    clear_stale_halves
tcp_meets = refl

abbrev key : FlowKey
key = key_of 3 (header open_half tcp)

abbrev metadata : Metadata
metadata = metadata_of (header open_half tcp)

-- The claim of the flow, and the registry behind the part of an OPEN half that puts it in the map.
abbrev claimed : Registry ℕ ℕ ℕ
claimed = (reserve_claim key metadata (some site) none linked).1

abbrev half_there : Registry ℕ ℕ ℕ
half_there = (place tcp key open_half metadata (some site) link uplink none 1 claimed).0

half_there_reached : Reach Seven Nine (new_registry ℕ ℕ ℕ 4 10 2) half_there
half_there_reached =
    more claimed half_there
      (more linked claimed linked_reached (reserves key metadata (some site) none linked))
      (places tcp key open_half metadata (some site) link uplink none 1 claimed refl
        (refl, refl, refl))

Reach-Sound_example : Sound Seven Nine half_there
Reach-Sound_example = Reach-Sound Seven Nine 4 10 2 half_there half_there_reached
