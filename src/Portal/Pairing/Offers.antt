-- ===== src/Portal/Pairing/Offers.antt =====
-- src/portal/pairing.rs: the pairs that a submission gives, and what the tests at its start say of
-- the halves that it brings.
use nowhere.Common.{
  ℕ, ◌≡◌, refl, ap, subst, true, false, Option, none, some, Bool-cases, inl, inr, arith,
  Result-cases,
}
use nowhere.Protocol.Flow.{FlowHeader}
use nowhere.Protocol.Setup.{FlowErrorCode}
use nowhere.Protocol.Target.{Target}
use nowhere.Portal.Pairing.{FlowKey, Metadata, LinkPath, FlowLease, Pending, Registry}
use nowhere.Portal.Pairing.Arms.{is_open, Half}
use nowhere.Portal.Pairing.Claims.{is_some, activate_claim}
use nowhere.Portal.Pairing.Install.{
  InstallOutcome, waiting, completed, refused, unreachable, generations_of,
}
use nowhere.Portal.Pairing.Submit.{
  key_of, metadata_of, Submitted, paired, pending, failed, panicked, paired_of, fail_early,
  activate_pair, finish_install,
}
use nowhere.Portal.Pairing.State.{UplinkFits, DownlinkFits, Sound}
use nowhere.Portal.Pairing.Calm.{activate_claim-Calm, abandon_claim-Calm}
use nowhere.Portal.Pairing.Halves.{
  Calm-Sound, drop_permit-Sound, reject_downlink-Sound, reject_flow_setup-Sound,
}
use nowhere.Portal.Pairing.Pairs.{Whole, Placed}

-- The parts of an uplink that is there.
uplink_parts :
    {U : Type 0} (P : Target → U → Type 0) (u : Option U) (t : Option Target)
    (path : Option LinkPath)
    → is_some u ≡ true
    → UplinkFits P u t path
    → (v : U) × (s : Target) × (q : LinkPath) × (u ≡ some v)
      × (t ≡ some s)
      × (path ≡ some q)
      × P s v
uplink_parts P none t path e f = cc
uplink_parts P (some v) (some s) (some q) e f = (v, s, q, refl, refl, refl, f)
uplink_parts P (some v) none path e f = elim f [ ]
uplink_parts P (some v) (some s) none e f = elim f [ ]

downlink_parts :
    {D : Type 0} (P : D → Type 0) (d : Option D) (path : Option LinkPath)
    → is_some d ≡ true
    → DownlinkFits P d path
    → (v : D) × (q : LinkPath) × (d ≡ some v) × (path ≡ some q) × P v
downlink_parts P none path e f = cc
downlink_parts P (some v) (some q) e f = (v, q, refl, refl, f)
downlink_parts P (some v) none e f = elim f [ ]

module _ {U D L : Type 0} (Up : FlowKey → Metadata → Target → U → Type 0)
    (Down : FlowKey → Metadata → D → Type 0) where
  -- A pair is of halves that were offered for the flow, and nothing panics.
  abbrev pub Belongs : FlowKey → Metadata → Submitted U D L → Type 0
  Belongs key metadata (paired p) =
      Up key metadata p.target p.uplink
      × Down key metadata p.downlink
      × (p.uplink_carrier ≡ metadata.uplink)
      × (p.downlink_carrier ≡ metadata.downlink)
  Belongs key metadata (pending epoch) = Unit {0}
  Belongs key metadata (failed code) = Unit {0}
  Belongs key metadata panicked = ⊥

  abbrev pub Safe : FlowKey → Metadata → Registry U D L × Submitted U D L → Type 0
  Safe key metadata x = Sound Up Down x.0 × Belongs key metadata x.1

  pub paired_of-Belongs :
      (key : FlowKey) (metadata : Metadata) (p : Pending U D L) (lease : FlowLease)
      → Whole Up Down key metadata p
      → Belongs key metadata (paired_of p lease)
  unfolding paired_of
  paired_of-Belongs key metadata p lease whole =
      let (u, t, q, eu, et, eq, up) =
        uplink_parts (Up key p.metadata) p.uplink p.target p.uplink_path
          (ground (arith, whole.both)) whole.halves.0 in
      let (d, s, ed, es, down) =
        downlink_parts (Down key p.metadata) p.downlink p.downlink_path (ground (arith, whole.both))
          whole.halves.1 in
      rw (paired_of, et, eu, ed, eq, es)
        (
          subst (λ m. Up key m t u) whole.same up,
          subst (λ m. Down key m d) whole.same down,
          ap (λ m. m.uplink) whole.same,
          ap (λ m. m.downlink) whole.same,
        )

  pub activate_pair-Safe :
      (key : FlowKey) (metadata : Metadata) (p : Pending U D L) (r : Registry U D L)
      → Whole Up Down key metadata p
      → Sound Up Down r
      → Safe key metadata (activate_pair key p r)
  unfolding activate_pair
  activate_pair-Safe key metadata p r whole sound =
      let activated = activate_claim key p.epoch (generations_of p) p.flow_permit r in
      let sound' : Sound Up Down activated.1 =
        Calm-Sound Up Down r activated.1
          (activate_claim-Calm key p.epoch (generations_of p) p.flow_permit r) sound in
      elim (Result-cases activated.0) [
        | inl (lease, e) ↦
            rw (activate_pair, e) (sound', paired_of-Belongs key metadata p lease whole)
        | inr (code, e) ↦
            rw (activate_pair, e)
              (
                reject_downlink-Sound Up Down p.downlink code _ (
                    drop_permit-Sound Up Down p.flow_permit _ (
                      Calm-Sound Up Down activated.1 _ (abandon_claim-Calm key p.epoch activated.1)
                        sound')),
                tt,
              )
      ]

  pub finish_install-Safe :
      (key : FlowKey) (metadata : Metadata) (now : ℕ) (x : Registry U D L × InstallOutcome U D L)
      → Placed Up Down key metadata x
      → Safe key metadata (finish_install key now x)
  unfolding finish_install
  finish_install-Safe key metadata now (r, waiting epoch) placed = (placed.0, tt)
  finish_install-Safe key metadata now (r, completed p) placed =
      activate_pair-Safe key metadata p r placed.1 placed.0
  finish_install-Safe key metadata now (r, unreachable) placed = elim (placed.1) [ ]
  finish_install-Safe key metadata now (r, refused code downlink true) placed = (
    reject_downlink-Sound Up Down downlink code _
        (reject_flow_setup-Sound Up Down key.session_id key.flow_id code now r placed.0),
    tt,
  )
  finish_install-Safe key metadata now (r, refused code downlink false) placed =
      (reject_downlink-Sound Up Down downlink code r placed.0, tt)

  pub fail_early-Safe :
      (session_id : ℕ) (header : FlowHeader) (half : Half U D L) (code : FlowErrorCode) (now : ℕ)
      (r : Registry U D L)
      → Sound Up Down r
      → Safe
          (key_of session_id header)
          (metadata_of header)
          (fail_early session_id header half code now r)
  unfolding fail_early
  fail_early-Safe session_id header half code now r sound =
      elim (Bool-cases (is_open header.role)) [
        | inl h ↦
            rw (fail_early, h)
              (
                reject_downlink-Sound Up Down half.writer code _
                    (reject_flow_setup-Sound Up Down session_id header.flow_id code now r sound),
                tt,
              )
        | inr h ↦ rw (fail_early, h) (reject_downlink-Sound Up Down half.writer code r sound, tt)
      ]
