-- ===== src/Portal/Pairing/Arms.antt =====
-- src/portal/pairing.rs: the halves that callers of `submit_tcp` and `submit_udp` bring, and the
-- `match` that puts a half at its place in the flow that waits.
use nowhere.Common.{
  ℕ, Bool, true, false, not, ◌&&◌, if◌then◌else◌, Option, none, some, ◌≡◌, refl, ◌⊎◌, inl, inr,
}
use nowhere.Protocol.Flow.{FlowRole, duplex, open_half, attach, FlowKind, tcp, udp}
use nowhere.Portal.Pairing.{LinkHalf, Pending}
use nowhere.Portal.Pairing.Claims.{is_some}

abbrev pub is_open : FlowRole → Bool
is_open open_half = true
is_open _ = false

abbrev pub is_attach : FlowRole → Bool
is_attach attach = true
is_attach _ = false

abbrev pub is_duplex : FlowRole → Bool
is_duplex duplex = true
is_duplex _ = false

-- What a caller submits: TCP's reader, writer and `downlink_liveness`, or the parts of a `UdpHalf`.
pub record Half (U D L : Type 0) : Type 0 where
  pub reader : Option U
  pub writer : Option D
  pub liveness : Option L

-- What the `match` comes to: the flow with the half, the half's downlink where the place is taken,
-- or the arm that is `unreachable!()`.
pub data Filling (U D L : Type 0) : Type 0 where
  filled : Pending U D L → Filling U D L
  taken : Option D → Filling U D L
  no_arm : Filling U D L

module _ {U D L : Type 0} where
  -- Whether one of the first two arms matches: TCP's are of the role alone, UDP's of the role and
  -- of the constructor of the `UdpHalf`.
  abbrev pub arm_matches : FlowKind → FlowRole → Half U D L → Bool
  arm_matches kind duplex half = false
  arm_matches tcp open_half half = true
  arm_matches tcp attach half = true
  arm_matches udp open_half half = is_some half.reader && not (is_some half.writer)
  arm_matches udp attach half = is_some half.writer && not (is_some half.reader)

  -- The arms of the roles.
  abbrev pub fill_arm : FlowRole → LinkHalf → Half U D L → Option ℕ → Pending U D L → Filling U D L
  fill_arm open_half link half permit p =
      if is_some p.uplink
      then taken none
      else filled (record p {
        uplink = half.reader;
        flow_permit = permit;
        uplink_path = some link.path;
        uplink_generation = link.quic_generation;
      })
  fill_arm attach link half permit p =
      if is_some p.downlink
      then taken half.writer
      else filled (record p {
        downlink = half.writer;
        downlink_liveness = half.liveness;
        downlink_path = some link.path;
        downlink_generation = link.quic_generation;
      })
  fill_arm duplex link half permit p = no_arm

  unfoldable pub fill :
      FlowKind → FlowRole → LinkHalf → Half U D L → Option ℕ → Pending U D L → Filling U D L
  fill kind role link half permit p =
      if arm_matches kind role half then fill_arm role link half permit p else no_arm

  pub Filling-cases :
      (x : Filling U D L)
      → ((p : Pending U D L) × (x ≡ filled p)) ⊎ (((d : Option D) × (x ≡ taken d)) ⊎ (x ≡ no_arm))
  Filling-cases (filled p) = inl (p, refl)
  Filling-cases (taken d) = inr (inl (d, refl))
  Filling-cases no_arm = inr (inr refl)
