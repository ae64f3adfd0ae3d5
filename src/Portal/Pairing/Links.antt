-- ===== src/Portal/Pairing/Links.antt =====
-- src/portal/pairing/link.rs and `LinkCounts` of src/portal/pairing/state.rs: the authenticated
-- carriers of the sessions, and the counters of them in `Stats`.
use nowhere.Common.{
  ℕ, ◌+◌, ◌-◌, [], ◌∷◌, ◌++◌, Bool, not, ◌==◌, ltb, ◌&&◌, if◌then◌else◌, Option, none, some,
}
use nowhere.Common.Map.{get, remove, put}
use nowhere.Protocol.Flow.{Carrier, tls_tcp, quic}
use nowhere.Portal.Pairing.{LinkCounts, Registry, same_generation}
use nowhere.Portal.Pairing.Claims.{same_number, is_some}
use nowhere.Portal.Pairing.Cancel.{replace_quic_generation, cancel_active_quic_generation}

-- The counters `link_tcp`, `link_udp` and `link_pairs` of `Stats`.
pub record LinkStats : Type 0 where
  pub link_tcp : ℕ
  pub link_udp : ℕ
  pub link_pairs : ℕ

pub record LinkGuard : Type 0 where
  pub session_id : ℕ
  pub carrier : Carrier
  pub quic_generation : Option ℕ

abbrev pub is_paired : LinkCounts → Bool
is_paired counts = ltb 0 counts.tcp && is_some counts.udp

-- `LinkCounts::new`, with the number of its semaphore.
abbrev pub new_counts : ℕ → LinkCounts
new_counts semaphore = record { tcp = 0; udp = none; udp_flow_budget = semaphore }

-- The session's counts without the carrier of a guard that is the current one.
abbrev pub without_carrier : Carrier → LinkCounts → LinkCounts
without_carrier tls_tcp counts = record counts { tcp = counts.tcp - 1 }
without_carrier quic counts = record counts { udp = none }

abbrev pub minus_carrier : Carrier → LinkStats → LinkStats
minus_carrier tls_tcp stats = record stats { link_tcp = stats.link_tcp - 1 }
minus_carrier quic stats = record stats { link_udp = stats.link_udp - 1 }

module _ {U D L : Type 0} where
  -- `entry(session_id).or_insert_with(...)`: a new entry has a semaphore of its own.
  unfoldable pub link_entry : ℕ → Registry U D L → LinkCounts × Registry U D L
  link_entry session_id r = elim (get same_number session_id r.links) [
    | some counts ↦ (counts, r)
    | none ↦ (
      new_counts r.next_semaphore,
      record r {
        permits = put same_number r.next_semaphore r.max_udp_flows r.permits;
        next_semaphore = r.next_semaphore + 1;
      },
    )
  ]

  unfoldable pub register_tcp_link :
      ℕ → Registry U D L → LinkStats → LinkGuard × Registry U D L × LinkStats
  register_tcp_link session_id r stats =
      let (counts, r') = link_entry session_id r in
      let was_paired = is_paired counts in
      let now_paired = is_some counts.udp in
      (
        record { session_id = session_id; carrier = tls_tcp; quic_generation = none },
        record r' {
          links = put same_number session_id (record counts { tcp = counts.tcp + 1 }) r'.links;
        },
        record stats {
          link_tcp = stats.link_tcp + 1;
          link_pairs =
              if not was_paired && now_paired then stats.link_pairs + 1 else stats.link_pairs;
        },
      )

  -- The part of `register_quic_link` under the lock: the new guard and the generation it replaces.
  unfoldable pub install_quic_link :
      ℕ → Registry U D L → LinkStats → LinkGuard × Option ℕ × Registry U D L × LinkStats
  install_quic_link session_id r stats =
      let generation = r.next_quic_generation in
      let (counts, r') =
        link_entry session_id (record r { next_quic_generation = generation + 1 }) in
      let was_paired = is_paired counts in
      let now_paired = ltb 0 counts.tcp in
      (
        record { session_id = session_id; carrier = quic; quic_generation = some generation },
        counts.udp,
        record r' {
          links = put same_number session_id (record counts { udp = some generation }) r'.links;
        },
        if is_some counts.udp then stats else (record stats {
          link_udp = stats.link_udp + 1;
          link_pairs =
              if not was_paired && now_paired then stats.link_pairs + 1 else stats.link_pairs;
        }),
      )

  -- The token of the replaced carrier is cancelled.
  abbrev pub replace_token : ℕ → Registry U D L → Registry U D L
  replace_token generation r = record r { replaced = r.replaced ++ (generation ∷ []) }

  -- A generation that is replaced is cancelled, and its token with it.
  unfoldable pub register_quic_link :
      ℕ → ℕ → Registry U D L → LinkStats → LinkGuard × Registry U D L × LinkStats
  register_quic_link session_id now r stats =
      let (guard, previous, r', stats') = install_quic_link session_id r stats in
      elim previous [
        | none ↦ (guard, r', stats')
        | some generation ↦ (
          guard,
          replace_quic_generation session_id generation now (replace_token generation r'),
          stats',
        )
      ]

  unfoldable pub unlink :
      ℕ → Carrier → LinkCounts → Registry U D L → LinkStats → Registry U D L × LinkStats
  unlink session_id carrier counts r stats =
      let counts' = without_carrier carrier counts in
      let stats' =
        if is_paired counts && not (is_paired counts')
        then record stats { link_pairs = stats.link_pairs - 1 }
        else stats in
      let links =
        if counts'.tcp == 0 && not (is_some counts'.udp)
        then remove same_number session_id r.links
        else put same_number session_id counts' r.links in
      (record r { links = links }, minus_carrier carrier stats')

  -- `cancel_quic_generation`, but for the purge that it leaves to a task of its own.
  abbrev pub cancel_generation : ℕ → Option ℕ → Registry U D L → Registry U D L
  cancel_generation session_id none r = r
  cancel_generation session_id (some generation) r =
      cancel_active_quic_generation session_id generation r

  -- The drop of a guard whose session has an entry.
  unfoldable pub drop_counted :
      LinkGuard → LinkCounts → Registry U D L → LinkStats → Registry U D L × LinkStats
  drop_counted guard counts r stats = elim guard.carrier [
    | tls_tcp ↦
        let (r', stats') = unlink guard.session_id tls_tcp counts r stats in
        (cancel_generation guard.session_id guard.quic_generation r', stats')
    | quic ↦ elim guard.quic_generation [
      | none ↦ (r, stats)
      | some generation ↦
          if not (same_generation counts.udp (some generation))
          then (cancel_generation guard.session_id (some generation) r, stats)
          else (let (r', stats') = unlink guard.session_id quic counts r stats in
              (cancel_generation guard.session_id (some generation) r', stats'))
    ]
  ]

  unfoldable pub drop_link : LinkGuard → Registry U D L → LinkStats → Registry U D L × LinkStats
  drop_link guard r stats = elim (get same_number guard.session_id r.links) [
    | none ↦ (cancel_generation guard.session_id guard.quic_generation r, stats)
    | some counts ↦ drop_counted guard counts r stats
  ]
