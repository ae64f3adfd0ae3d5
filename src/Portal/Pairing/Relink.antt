-- ===== src/Portal/Pairing/Relink.antt =====
-- src/portal/pairing/link.rs: the changes of the carriers leave flows and claims alone.
use nowhere.Common.{ℕ, ◌+◌, ◌≡◌, refl, Option-cases, ◌⊎◌, inl, inr}
use nowhere.Common.Map.{get}
use nowhere.Protocol.Flow.{Carrier, tls_tcp, quic}
use nowhere.Portal.Pairing.{LinkCounts, Registry}
use nowhere.Portal.Pairing.Claims.{same_number}
use nowhere.Portal.Pairing.Links.{
  LinkStats, link_entry, register_tcp_link, install_quic_link, unlink,
}
use nowhere.Portal.Pairing.Calm.{Calm, Calm-refl, Calm-trans, beside}

pub carriers : (c : Carrier) → (c ≡ tls_tcp) ⊎ (c ≡ quic)
carriers tls_tcp = inl refl
carriers quic = inr refl

module _ {U D L : Type 0} where
  link_entry-Calm : (session_id : ℕ) (r : Registry U D L) → Calm r (link_entry session_id r).1
  unfolding link_entry
  link_entry-Calm session_id r = elim (Option-cases (get same_number session_id r.links)) [
    | inl e ↦ rw (link_entry, e) (beside r _ refl refl refl refl)
    | inr (counts, e) ↦ rw (link_entry, e) (Calm-refl r)
  ]

  pub register_tcp_link-Calm :
      (session_id : ℕ) (r : Registry U D L) (stats : LinkStats)
      → Calm r (register_tcp_link session_id r stats).1
  unfolding register_tcp_link
  register_tcp_link-Calm session_id r stats =
      Calm-trans r (link_entry session_id r).1 _ (link_entry-Calm session_id r)
        (beside (link_entry session_id r).1 _ refl refl refl refl)

  pub install_quic_link-Calm :
      (session_id : ℕ) (r : Registry U D L) (stats : LinkStats)
      → Calm r (install_quic_link session_id r stats).2
  unfolding install_quic_link
  install_quic_link-Calm session_id r stats =
      let r' = record r { next_quic_generation = r.next_quic_generation + 1 } in
      Calm-trans r (link_entry session_id r').1 _
        (Calm-trans r r' _ (beside r r' refl refl refl refl) (link_entry-Calm session_id r'))
        (beside (link_entry session_id r').1 _ refl refl refl refl)

  pub unlink-Calm :
      (session_id : ℕ) (carrier : Carrier) (counts : LinkCounts) (r : Registry U D L)
      (stats : LinkStats)
      → Calm r (unlink session_id carrier counts r stats).0
  unfolding unlink
  unlink-Calm session_id carrier counts r stats = beside r _ refl refl refl refl
