-- ===== src/Portal/Pairing/Fill.antt =====
-- src/portal/pairing.rs: what the halves of a flow are where stale halves go and a half comes.
use nowhere.Common.{
  ℕ, ◌≡◌, refl, sym, subst, true, false, Option, none, some, Bool-cases, Option-cases, inl, inr,
}
use nowhere.Common.Map.{get, get-Each}
use nowhere.Protocol.Flow.{FlowRole, duplex, open_half, attach, FlowKind}
use nowhere.Protocol.Target.{Target}
use nowhere.Portal.Pairing.{FlowKey, same_flow, Metadata, LinkHalf, LinkPath, Pending, Registry}
use nowhere.Portal.Pairing.Arms.{Half, Filling, filled, taken, no_arm, arm_matches, fill}
use nowhere.Portal.Pairing.Claims.{is_some, or_target}
use nowhere.Portal.Pairing.Reject.{pending_of}
use nowhere.Portal.Pairing.Install.{
  uplink_is_stale, downlink_is_stale, clear_uplink, clear_downlink, clear_stale, lost_both,
  keep_pending, clear_stale_halves, drop_stale, new_pending,
}
use nowhere.Portal.Pairing.State.{same_flow_eq, UplinkFits, DownlinkFits, IsHalves, Sound}
use nowhere.Portal.Pairing.Calm.{follow_claim-Calm}
use nowhere.Portal.Pairing.Halves.{
  Calm-Sound, pending-Each, remove_pending-Sound, put_pending-Sound, drop_permit-Sound,
}

module _ {U : Type 0} (P : Target → U → Type 0) where
  kept-UplinkFits :
      (u : Option U) (t target : Option Target) (path : Option LinkPath)
      → is_some u ≡ true
      → UplinkFits P u t path
      → UplinkFits P u (or_target t target) path
  kept-UplinkFits none t target path e f = cc
  kept-UplinkFits (some u) (some t) target (some path) e f = f
  kept-UplinkFits (some u) none target path e f = elim f [ ]
  kept-UplinkFits (some u) (some t) target none e f = elim f [ ]

  no_target :
      (u : Option U) (t : Option Target) (path : Option LinkPath)
      → is_some u ≡ false
      → UplinkFits P u t path
      → t ≡ none
  no_target (some u) t path e f = cc
  no_target none none path e f = refl
  no_target none (some t) path e f = elim f [ ]

or_target-none : (t : Option Target) → or_target t none ≡ t
or_target-none none = refl
or_target-none (some t) = refl

or_target-same : (t : Option Target) → or_target t t ≡ t
or_target-same none = refl
or_target-same (some t) = refl

module _ {U D L : Type 0} (Up : FlowKey → Metadata → Target → U → Type 0)
    (Down : FlowKey → Metadata → D → Type 0) where
  -- What a role brings: an uplink with its target, a downlink, or both.
  abbrev pub Brings : FlowRole → FlowKey → Metadata → Option Target → Half U D L → LinkPath → Type 0
  Brings open_half key metadata target half path =
      UplinkFits (Up key metadata) half.reader target (some path)
  Brings attach key metadata target half path =
      (target ≡ none) × DownlinkFits (Down key metadata) half.writer (some path)
  Brings duplex key metadata target half path =
      UplinkFits (Up key metadata) half.reader target (some path)
      × DownlinkFits (Down key metadata) half.writer (some path)

  -- What `fill` gives: a flow with proper halves, or what holds where it refuses.
  abbrev pub Filled : FlowKey → Metadata → Type 0 → Filling U D L → Type 0
  Filled key metadata Left (filled q) = (q.metadata ≡ metadata) × IsHalves Up Down key q
  Filled key metadata Left (taken downlink) = Left
  Filled key metadata Left no_arm = ⊥

  clear_uplink-IsHalves :
      (key : FlowKey) (active : Option ℕ) (p : Pending U D L)
      → IsHalves Up Down key p
      → IsHalves Up Down key (clear_uplink active p)
  clear_uplink-IsHalves key active p halves = elim (Bool-cases (uplink_is_stale active p)) [
    | inl h ↦ rw h (tt, halves.1)
    | inr h ↦ rw h halves
  ]

  clear_downlink-IsHalves :
      (key : FlowKey) (active : Option ℕ) (p : Pending U D L)
      → IsHalves Up Down key p
      → IsHalves Up Down key (clear_downlink active p)
  clear_downlink-IsHalves key active p halves = elim (Bool-cases (downlink_is_stale active p)) [
    | inl h ↦ rw h (halves.0, tt)
    | inr h ↦ rw h halves
  ]

  keep_pending-Sound :
      (kind : FlowKind) (key : FlowKey) (p : Pending U D L) (r : Registry U D L)
      → IsHalves Up Down key p
      → Sound Up Down r
      → Sound Up Down (keep_pending kind key p r)
  keep_pending-Sound kind key p r halves sound = elim (Bool-cases (lost_both p)) [
    | inl h ↦ rw h (remove_pending-Sound Up Down kind key r sound)
    | inr h ↦ rw h (put_pending-Sound Up Down kind key p r halves sound)
  ]

  pub clear_stale_halves-Sound :
      (kind : FlowKind) (key : FlowKey) (active : Option ℕ) (r : Registry U D L)
      → Sound Up Down r
      → Sound Up Down (clear_stale_halves kind key active r)
  unfolding clear_stale_halves
  clear_stale_halves-Sound kind key active r sound =
      elim (Option-cases (get same_flow key (pending_of kind r))) [
        | inl e ↦ rw (clear_stale_halves, e) sound
        | inr (pending, e) ↦
            let halves =
              get-Each same_flow (IsHalves Up Down) same_flow_eq key (pending_of kind r) pending
                (pending-Each Up Down kind r sound) e in
            rw (clear_stale_halves, e)
              (keep_pending-Sound kind key (clear_stale active pending) r
                (clear_downlink-IsHalves key active (clear_uplink active pending)
                  (clear_uplink-IsHalves key active pending halves))
                sound)
      ]

  pub drop_stale-Sound :
      (kind : FlowKind) (key : FlowKey) (active : Option ℕ) (r : Registry U D L)
      → Sound Up Down r
      → Sound Up Down (drop_stale kind key active r)
  unfolding drop_stale
  drop_stale-Sound kind key active r sound =
      elim (Option-cases (get same_flow key (pending_of kind r))) [
        | inl e ↦ rw (drop_stale, e) sound
        | inr (pending, e) ↦
            let p : Pending U D L = clear_stale active pending in
            rw (drop_stale, e)
              (drop_permit-Sound Up Down _ _ (
                Calm-Sound Up Down _ _ (follow_claim-Calm key p (lost_both p) _)
                  (clear_stale_halves-Sound kind key active r sound)))
      ]

  -- A half that comes to a flow that waits.
  pub fill-Filled :
      (kind : FlowKind) (role : FlowRole) (key : FlowKey) (metadata : Metadata)
      (target : Option Target) (link : LinkHalf) (half : Half U D L) (permit : Option ℕ)
      (p : Pending U D L)
      → arm_matches kind role half ≡ true
      → Brings role key metadata target half link.path
      → p.metadata ≡ metadata
      → IsHalves Up Down key p
      → Filled key metadata
          (IsHalves Up Down key (record p { target = or_target p.target target }))
          (fill kind role link half permit (record p { target = or_target p.target target }))
  unfolding fill
  fill-Filled kind open_half key metadata target link half permit p fits brings same halves =
      elim (Bool-cases (is_some p.uplink)) [
        | inl h ↦
            rw (fill, fits, h)
              (
                kept-UplinkFits (Up key p.metadata) p.uplink p.target target p.uplink_path h
                    halves.0,
                halves.1,
              )
        | inr h ↦
            rw
              (
                fill,
                fits,
                h,
                no_target (Up key p.metadata) p.uplink p.target p.uplink_path h halves.0,
              )
              (
                same,
                (
                  subst (λ m. UplinkFits (Up key m) half.reader target (some link.path)) (sym same)
                      brings,
                  halves.1,
                ),
              )
      ]
  fill-Filled kind attach key metadata target link half permit p fits brings same halves =
      elim (Bool-cases (is_some p.downlink)) [
        | inl h ↦ rw (fill, fits, h, brings.0, or_target-none p.target) halves
        | inr h ↦
            rw (fill, fits, h, brings.0, or_target-none p.target)
              (
                same,
                (
                  halves.0,
                  subst (λ m. DownlinkFits (Down key m) half.writer (some link.path)) (sym same)
                      brings.1,
                ),
              )
      ]
  fill-Filled kind duplex key metadata target link half permit p fits brings same halves = cc

  -- A half that comes first.
  pub fill-new :
      (kind : FlowKind) (role : FlowRole) (key : FlowKey) (metadata : Metadata)
      (target : Option Target) (link : LinkHalf) (half : Half U D L) (permit : Option ℕ) (epoch : ℕ)
      (active : Option ℕ)
      → arm_matches kind role half ≡ true
      → Brings role key metadata target half link.path
      → Filled key metadata ⊥ (
          fill kind role link half permit (record (new_pending epoch metadata active target) {
            target = or_target target target;
          }))
  unfolding fill
  fill-new kind open_half key metadata target link half permit epoch active fits brings =
      rw (fill, fits, or_target-same target) (refl, (brings, tt))
  fill-new kind attach key metadata target link half permit epoch active fits brings =
      rw (fill, fits, brings.0) (refl, (tt, brings.1))
  fill-new kind duplex key metadata target link half permit epoch active fits brings = cc
