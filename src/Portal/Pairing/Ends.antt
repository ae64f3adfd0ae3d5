-- ===== src/Portal/Pairing/Ends.antt =====
-- src/portal/pairing.rs: soundness of the registry where flows end.
use nowhere.Common.{ℕ, [], refl, arith}
use nowhere.Common.Map.{count-keep}
use nowhere.Protocol.Flow.{FlowKind}
use nowhere.Protocol.Target.{Target}
use nowhere.Portal.Pairing.{FlowKey, Metadata, Registry}
use nowhere.Portal.Pairing.Claims.{waits_in, abandon_claim}
use nowhere.Portal.Pairing.Cancel.{
  cancel_token, clear_pending, clear_rejections, retain_active, cancel_claims,
}
use nowhere.Portal.Pairing.State.{Sound}
use nowhere.Portal.Pairing.Calm.{beside, abandon_claim-Calm}
use nowhere.Portal.Pairing.Halves.{Calm-Sound, with_pending-Sound}

module _ {U D L : Type 0} (Up : FlowKey → Metadata → Target → U → Type 0)
    (Down : FlowKey → Metadata → D → Type 0) where
  pub abandon_claim-Sound :
      (key : FlowKey) (epoch : ℕ) (r : Registry U D L)
      → Sound Up Down r
      → Sound Up Down (abandon_claim key epoch r)
  abandon_claim-Sound key epoch r sound =
      Calm-Sound Up Down r (abandon_claim key epoch r) (abandon_claim-Calm key epoch r) sound

  pub clear_pending-Sound :
      (kind : FlowKind) (r : Registry U D L)
      → Sound Up Down r
      → Sound Up Down (clear_pending kind r)
  clear_pending-Sound kind r sound = with_pending-Sound Up Down kind [] r tt sound

  pub clear_rejections-Sound :
      (r : Registry U D L) → Sound Up Down r → Sound Up Down (clear_rejections r)
  clear_rejections-Sound r sound =
      Calm-Sound Up Down r (clear_rejections r) (beside r _ refl refl refl refl) sound

  pub retain_active-Sound : (r : Registry U D L) → Sound Up Down r → Sound Up Down (retain_active r)
  retain_active-Sound r sound = record {
    tcp_halves = sound.tcp_halves;
    udp_halves = sound.udp_halves;
    limit = λ i.
        let most = sound.limit i in
        let less = count-keep (waits_in i) (λ k claim. claim.active) r.claims in
        omega (arith, most, less);
  }

  pub cancel_claims-Sound : (r : Registry U D L) → Sound Up Down r → Sound Up Down (cancel_claims r)
  cancel_claims-Sound r sound =
      Calm-Sound Up Down r (cancel_claims r) (beside r _ refl refl refl refl) sound

  pub cancel_token-Sound :
      (token : ℕ) (r : Registry U D L) → Sound Up Down r → Sound Up Down (cancel_token token r)
  cancel_token-Sound token r sound =
      Calm-Sound Up Down r (cancel_token token r) (beside r _ refl refl refl refl) sound
