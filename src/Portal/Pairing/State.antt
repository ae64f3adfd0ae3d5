-- ===== src/Portal/Pairing/State.antt =====
-- What a sound registry is: the halves that wait in it are complete and of their flows, and no
-- session has more waiting claims than it may.
use nowhere.Common.{ℕ, ◌≡◌, ◌≤◌, refl, true, Option, none, some, arith}
use nowhere.Common.Map.{Each, count}
use nowhere.Protocol.Flow.{FlowKind, tcp, udp, Carrier, tls_tcp, quic, same_carrier}
use nowhere.Protocol.Target.{Target}
use nowhere.Portal.Pairing.{
  FlowKey, same_flow, same_kind, Metadata, same_metadata, LinkPath, Pending, Registry,
}
use nowhere.Portal.Pairing.Claims.{waits_in}

pub same_flow_eq : (j k : FlowKey) → same_flow j k ≡ true → j ≡ k
same_flow_eq j k e = ground arith

same_carrier_eq : (a b : Carrier) → same_carrier a b ≡ true → a ≡ b
same_carrier_eq tls_tcp tls_tcp e = refl
same_carrier_eq tls_tcp quic e = cc
same_carrier_eq quic tls_tcp e = cc
same_carrier_eq quic quic e = refl

same_kind_eq : (a b : FlowKind) → same_kind a b ≡ true → a ≡ b
same_kind_eq tcp tcp e = refl
same_kind_eq tcp udp e = cc
same_kind_eq udp tcp e = cc
same_kind_eq udp udp e = refl

pub same_metadata_eq : (a b : Metadata) → same_metadata a b ≡ true → a ≡ b
same_metadata_eq a b e = ground (
  arith,
  same_kind_eq a.kind b.kind,
  same_carrier_eq a.uplink b.uplink,
  same_carrier_eq a.downlink b.downlink,
)

same_carrier_refl : (a : Carrier) → same_carrier a a ≡ true
same_carrier_refl tls_tcp = refl
same_carrier_refl quic = refl

same_kind_refl : (a : FlowKind) → same_kind a a ≡ true
same_kind_refl tcp = refl
same_kind_refl udp = refl

pub same_metadata_refl : (a : Metadata) → same_metadata a a ≡ true
same_metadata_refl a =
    rw (same_kind_refl a.kind, same_carrier_refl a.uplink, same_carrier_refl a.downlink) refl

-- An uplink comes with its target and its path, and neither of these without it.
abbrev pub UplinkFits :
    {U : Type 0} → (Target → U → Type 0) → Option U → Option Target → Option LinkPath → Type 0
UplinkFits P (some u) (some t) (some path) = P t u
UplinkFits P none none none = Unit {0}
UplinkFits P _ _ _ = ⊥

abbrev pub DownlinkFits : {D : Type 0} → (D → Type 0) → Option D → Option LinkPath → Type 0
DownlinkFits P (some d) (some path) = P d
DownlinkFits P none none = Unit {0}
DownlinkFits P _ _ = ⊥

-- `Up` says of an uplink that it was offered for a flow with a target, and `Down` of a downlink
-- that it was offered for a flow.
module _ {U D L : Type 0} (Up : FlowKey → Metadata → Target → U → Type 0)
    (Down : FlowKey → Metadata → D → Type 0) where
  abbrev pub IsHalves : FlowKey → Pending U D L → Type 0
  IsHalves k p =
      UplinkFits (Up k p.metadata) p.uplink p.target p.uplink_path
      × DownlinkFits (Down k p.metadata) p.downlink p.downlink_path

  pub record Sound (r : Registry U D L) : Type 0 where
    pub tcp_halves : Each IsHalves r.tcp
    pub udp_halves : Each IsHalves r.udp
    pub limit : (session_id : ℕ) → count (waits_in session_id) r.claims ≤ r.max_pending
