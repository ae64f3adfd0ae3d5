-- ===== src/Portal/Pairing/Shapes.antt =====
-- src/portal/pairing.rs: what the tests at the start of `submit_tcp` and of `submit_udp` say of the
-- halves that a caller brings.
use nowhere.Common.{
  false, ℕ, ◌≡◌, refl, subst, true, not, Option, none, some, Option-cases, inl, inr, arith, ok,
}
use nowhere.Protocol.Flow.{tcp, udp, FlowRole, duplex, open_half, attach, FlowKind, FlowHeader}
use nowhere.Protocol.Target.{Target}
use nowhere.Portal.Pairing.{FlowKey, Metadata, LinkHalf, LinkPath, Registry}
use nowhere.Portal.Pairing.Arms.{Half, is_duplex, arm_matches}
use nowhere.Portal.Pairing.Claims.{is_some, target_fits, validate_header_and_link}
use nowhere.Portal.Pairing.Submit.{tcp_shape, udp_shape}
use nowhere.Portal.Pairing.State.{UplinkFits, DownlinkFits}
use nowhere.Portal.Pairing.Fill.{Brings}

no_target_attach : (target : Option Target) → not (is_some target) ≡ true → target ≡ none
no_target_attach none e = refl
no_target_attach (some t) e = cc

module _ {U D L : Type 0} (Up : FlowKey → Metadata → Target → U → Type 0)
    (Down : FlowKey → Metadata → D → Type 0) where
  -- What is said of the reader and the writer that a caller brings.
  abbrev pub UplinkIs : FlowKey → Metadata → Option Target → Half U D L → Type 0
  UplinkIs key metadata target half =
      (t : Target) (u : U) → target ≡ some t → half.reader ≡ some u → Up key metadata t u

  abbrev pub DownlinkIs : FlowKey → Metadata → Half U D L → Type 0
  DownlinkIs key metadata half = (d : D) → half.writer ≡ some d → Down key metadata d

  brings_uplink :
      (key : FlowKey) (metadata : Metadata) (target : Option Target) (half : Half U D L)
      (path : LinkPath)
      → is_some target ≡ true
      → is_some half.reader ≡ true
      → UplinkIs key metadata target half
      → UplinkFits (Up key metadata) half.reader target (some path)
  brings_uplink key metadata none half path s t up = cc
  brings_uplink key metadata (some target) half path s t up = elim (Option-cases half.reader) [
    | inl e ↦ let no = subst (λ o. is_some o ≡ true) e t in cc
    | inr (u, e) ↦ rw e (up target u refl e)
  ]

  brings_downlink :
      (key : FlowKey) (metadata : Metadata) (half : Half U D L) (path : LinkPath)
      → is_some half.writer ≡ true
      → DownlinkIs key metadata half
      → DownlinkFits (Down key metadata) half.writer (some path)
  brings_downlink key metadata half path t down = elim (Option-cases half.writer) [
    | inl e ↦ let no = subst (λ o. is_some o ≡ true) e t in cc
    | inr (d, e) ↦ rw e (down d e)
  ]

  -- A submission of a shape that fits its role and its target.
  pub tcp_shape-Brings :
      (role : FlowRole) (key : FlowKey) (metadata : Metadata) (target : Option Target)
      (half : Half U D L) (path : LinkPath)
      → target_fits role target ≡ true
      → tcp_shape role half ≡ true
      → UplinkIs key metadata target half
      → DownlinkIs key metadata half
      → Brings Up Down role key metadata target half path
  tcp_shape-Brings open_half key metadata target half path fits shape up down =
      brings_uplink key metadata target half path fits shape up
  tcp_shape-Brings attach key metadata target half path fits shape up down =
      (no_target_attach target fits, brings_downlink key metadata half path shape down)
  tcp_shape-Brings duplex key metadata target half path fits shape up down = (
    brings_uplink key metadata target half path fits (ground (arith, shape)) up,
    brings_downlink key metadata half path (ground (arith, shape)) down,
  )

  pub udp_shape-tcp_shape :
      (role : FlowRole) (half : Half U D L)
      → udp_shape role half ≡ true
      → tcp_shape role half ≡ true
  udp_shape-tcp_shape open_half half shape = ground (arith, shape)
  udp_shape-tcp_shape attach half shape = ground (arith, shape)
  udp_shape-tcp_shape duplex half shape = shape

module _ {U D L : Type 0} where
  -- The arms of `submit_tcp` are those of the roles that are not duplex.
  pub tcp_arm :
      (role : FlowRole) (half : Half U D L)
      → is_duplex role ≡ false
      → arm_matches tcp role half ≡ true
  tcp_arm open_half half single = refl
  tcp_arm attach half single = refl
  tcp_arm duplex half single = cc

  -- The shape test of `submit_udp` leaves no half that no arm matches.
  pub udp_shape-arm_matches :
      (role : FlowRole) (half : Half U D L)
      → is_duplex role ≡ false
      → udp_shape role half ≡ true
      → arm_matches udp role half ≡ true
  udp_shape-arm_matches open_half half single shape = ground (arith, shape)
  udp_shape-arm_matches attach half single shape = ground (arith, shape)
  udp_shape-arm_matches duplex half single shape = cc

pub validated_target :
    {U D L : Type 0} (session_id : ℕ) (header : FlowHeader) (kind : FlowKind)
    (target : Option Target) (link : LinkHalf) (r : Registry U D L)
    → validate_header_and_link session_id header kind target link r ≡ ok tt
    → target_fits header.role target ≡ true
unfolding validate_header_and_link
validated_target session_id header kind target link r e = ground (arith, e)
