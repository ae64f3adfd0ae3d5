-- ===== src/Portal/Pairing/LinkCount.antt =====
-- src/portal/pairing/link.rs: the registrations and the drops of guards as steps, and the counters
-- of `Stats` as sums over the sessions.
use nowhere.Common.{
  ℕ, ◌+◌, ◌≡◌, ◌≤◌, refl, sym, subst, List, [], ◌∷◌, true, ◌==◌, Option, none, some, Bool-cases,
  Option-cases, inl, inr, arith, if◌then◌else◌,
}
use nowhere.Common.Map.{get, put}
use nowhere.Protocol.Flow.{Carrier, tls_tcp, quic}
use nowhere.Portal.Pairing.{LinkCounts, Registry, same_generation}
use nowhere.Portal.Pairing.Claims.{same_number, is_some}
use nowhere.Portal.Pairing.Links.{
  LinkStats, LinkGuard, new_counts, link_entry, register_tcp_link, install_quic_link,
  without_carrier, unlink, cancel_generation, drop_counted, drop_link,
}
use nowhere.Portal.Pairing.Cancel.{cancel_active_quic_generation}
use nowhere.Portal.Pairing.Relink.{carriers}
use nowhere.Portal.Pairing.LinkSums.{
  tcp_of, udp_of, pair_of, total, number_of, IsMap, total-put, put-IsMap, total-without_entry,
  without_entry-IsMap,
}

-- The guards of TLS carriers of a session.
abbrev pub tls_guards : ℕ → List LinkGuard → ℕ
tls_guards s [] = 0
tls_guards s (g ∷ guards) =
    (elim g.carrier [ tls_tcp ↦ (if g.session_id == s then 1 else 0) | quic ↦ 0 ])
    + tls_guards s guards

-- The carrier is one of the session's.
abbrev pub Carried : Carrier → LinkCounts → Type 0
Carried tls_tcp counts = 1 ≤ counts.tcp
Carried quic counts = is_some counts.udp ≡ true

pub active_udp : (udp : Option ℕ) (g : ℕ) → same_generation udp (some g) ≡ true → is_some udp ≡ true
active_udp none g e = cc
active_udp (some h) g e = refl

module _ {U D L : Type 0} where
  -- The counters are the sums over the sessions.
  pub record Counted (r : Registry U D L) (stats : LinkStats) : Type 0 where
    pub one : IsMap r.links
    pub tcp_sum : stats.link_tcp ≡ total tcp_of r.links
    pub udp_sum : stats.link_udp ≡ total udp_of r.links
    pub pair_sum : stats.link_pairs ≡ total pair_of r.links

  pub link_entry-links : (s : ℕ) (r : Registry U D L) → (link_entry s r).1.links ≡ r.links
  unfolding link_entry
  link_entry-links s r = elim (Option-cases (get same_number s r.links)) [
    | inl e ↦ rw (link_entry, e) refl
    | inr (counts, e) ↦ rw (link_entry, e) refl
  ]

  pub link_entry-number :
      (f : LinkCounts → ℕ) (s : ℕ) (r : Registry U D L)
      → f (new_counts r.next_semaphore) ≡ 0
      → number_of f s r.links ≡ f (link_entry s r).0
  unfolding link_entry
  link_entry-number f s r z = elim (Option-cases (get same_number s r.links)) [
    | inl e ↦ rw (number_of, link_entry, e) (sym z)
    | inr (counts, e) ↦ rw (number_of, link_entry, e) refl
  ]

  pub register_tcp_link-Counted :
      (s : ℕ) (r : Registry U D L) (stats : LinkStats)
      → Counted r stats
      → Counted (register_tcp_link s r stats).1 (register_tcp_link s r stats).2
  unfolding register_tcp_link
  register_tcp_link-Counted s r stats counted =
      let counts = (link_entry s r).0 in
      let same = link_entry-links s r in
      let new = record counts { tcp = counts.tcp + 1 } in
      let old_tcp = link_entry-number tcp_of s r refl in
      let old_udp = link_entry-number udp_of s r refl in
      let old_pair = link_entry-number pair_of s r refl in
      let put_tcp = total-put tcp_of s new r.links counted.one in
      let put_udp = total-put udp_of s new r.links counted.one in
      let put_pair = total-put pair_of s new r.links counted.one in
      record {
        one =
            subst (λ m. IsMap (put same_number s new m)) (sym same)
              (put-IsMap s new r.links counted.one);
        tcp_sum = rw same (omega (arith, old_tcp, put_tcp, counted.tcp_sum));
        udp_sum = rw same (omega (arith, old_udp, put_udp, counted.udp_sum));
        pair_sum = rw same (ground (arith, old_pair, put_pair, counted.pair_sum));
      }

  pub install_quic_link-Counted :
      (s : ℕ) (r : Registry U D L) (stats : LinkStats)
      → Counted r stats
      → Counted (install_quic_link s r stats).2 (install_quic_link s r stats).3
  unfolding install_quic_link
  install_quic_link-Counted s r stats counted =
      let r' = record r { next_quic_generation = r.next_quic_generation + 1 } in
      let counts = (link_entry s r').0 in
      let same = link_entry-links s r' in
      let new = record counts { udp = some r.next_quic_generation } in
      let old_tcp = link_entry-number tcp_of s r' refl in
      let old_udp = link_entry-number udp_of s r' refl in
      let old_pair = link_entry-number pair_of s r' refl in
      let put_tcp = total-put tcp_of s new r.links counted.one in
      let put_udp = total-put udp_of s new r.links counted.one in
      let put_pair = total-put pair_of s new r.links counted.one in
      let one' =
        subst (λ m. IsMap (put same_number s new m)) (sym same)
          (put-IsMap s new r.links counted.one) in
      elim (Bool-cases (is_some counts.udp)) [
        | inl h ↦
            rw (install_quic_link, h)
              (record {
                one = one';
                tcp_sum = rw same (omega (arith, old_tcp, put_tcp, counted.tcp_sum));
                udp_sum = rw same (ground (arith, old_udp, put_udp, counted.udp_sum, h));
                pair_sum = rw same (ground (arith, old_pair, put_pair, counted.pair_sum, h));
              })
        | inr h ↦
            rw (install_quic_link, h)
              (record {
                one = one';
                tcp_sum = rw same (omega (arith, old_tcp, put_tcp, counted.tcp_sum));
                udp_sum = rw same (ground (arith, old_udp, put_udp, counted.udp_sum, h));
                pair_sum = rw same (ground (arith, old_pair, put_pair, counted.pair_sum, h));
              })
      ]

  unlink-Counted :
      (s : ℕ) (carrier : Carrier) (counts : LinkCounts) (r : Registry U D L) (stats : LinkStats)
      → get same_number s r.links ≡ some counts
      → Carried carrier counts
      → Counted r stats
      → Counted (unlink s carrier counts r stats).0 (unlink s carrier counts r stats).1
  unfolding unlink
  unlink-Counted s tls_tcp counts r stats e c counted =
      let new = without_carrier tls_tcp counts in
      let left_tcp =
        total-without_entry tcp_of s new r.links (λ h. ground (arith, h)) counted.one in
      let left_udp =
        total-without_entry udp_of s new r.links (λ h. ground (arith, h)) counted.one in
      let left_pair =
        total-without_entry pair_of s new r.links (λ h. ground (arith, h)) counted.one in
      let old_tcp : number_of tcp_of s r.links ≡ counts.tcp = rw (number_of, e) refl in
      let old_udp : number_of udp_of s r.links ≡ udp_of counts = rw (number_of, e) refl in
      let old_pair : number_of pair_of s r.links ≡ pair_of counts = rw (number_of, e) refl in
      record {
        one = without_entry-IsMap s new r.links counted.one;
        tcp_sum = ground (arith, c, left_tcp, old_tcp, counted.tcp_sum);
        udp_sum = ground (arith, c, left_udp, old_udp, counted.udp_sum);
        pair_sum = ground (arith, c, left_pair, old_pair, counted.pair_sum);
      }
  unlink-Counted s quic counts r stats e c counted =
      let new = without_carrier quic counts in
      let left_tcp =
        total-without_entry tcp_of s new r.links (λ h. ground (arith, h)) counted.one in
      let left_udp =
        total-without_entry udp_of s new r.links (λ h. ground (arith, h)) counted.one in
      let left_pair =
        total-without_entry pair_of s new r.links (λ h. ground (arith, h)) counted.one in
      let old_tcp : number_of tcp_of s r.links ≡ counts.tcp = rw (number_of, e) refl in
      let old_udp : number_of udp_of s r.links ≡ udp_of counts = rw (number_of, e) refl in
      let old_pair : number_of pair_of s r.links ≡ pair_of counts = rw (number_of, e) refl in
      record {
        one = without_entry-IsMap s new r.links counted.one;
        tcp_sum = ground (arith, c, left_tcp, old_tcp, counted.tcp_sum);
        udp_sum = ground (arith, c, left_udp, old_udp, counted.udp_sum);
        pair_sum = ground (arith, c, left_pair, old_pair, counted.pair_sum);
      }

  cancel_generation-Counted :
      (s : ℕ) (generation : Option ℕ) (r : Registry U D L) (stats : LinkStats)
      → Counted r stats
      → Counted (cancel_generation s generation r) stats
  unfolding cancel_active_quic_generation
  cancel_generation-Counted s none r stats counted = counted
  cancel_generation-Counted s (some generation) r stats counted = record {
    one = counted.one;
    tcp_sum = counted.tcp_sum;
    udp_sum = counted.udp_sum;
    pair_sum = counted.pair_sum;
  }

  drop_counted-Counted :
      (guard : LinkGuard) (counts : LinkCounts) (r : Registry U D L) (stats : LinkStats)
      → get same_number guard.session_id r.links ≡ some counts
      → (guard.carrier ≡ tls_tcp → 1 ≤ counts.tcp)
      → Counted r stats
      → Counted (drop_counted guard counts r stats).0 (drop_counted guard counts r stats).1
  unfolding drop_counted
  drop_counted-Counted guard counts r stats e held counted =
      let s = guard.session_id in
      elim (carriers guard.carrier) [
        | inl c ↦
            let left = unlink s tls_tcp counts r stats in
            rw (drop_counted, c)
              (cancel_generation-Counted s guard.quic_generation left.0 left.1
                (unlink-Counted s tls_tcp counts r stats e (held c) counted))
        | inr c ↦ elim (Option-cases guard.quic_generation) [
          | inl n ↦ rw (drop_counted, c, n) counted
          | inr (g, q) ↦ elim (Bool-cases (same_generation counts.udp (some g))) [
            | inl h ↦
                let left = unlink s quic counts r stats in
                rw (drop_counted, c, q, h)
                  (cancel_generation-Counted s (some g) left.0 left.1
                    (unlink-Counted s quic counts r stats e (active_udp counts.udp g h) counted))
            | inr h ↦
                rw (drop_counted, c, q, h) (cancel_generation-Counted s (some g) r stats counted)
          ]
        ]
      ]

  pub drop_link-Counted :
      (guard : LinkGuard) (r : Registry U D L) (stats : LinkStats)
      → (guard.carrier ≡ tls_tcp → 1 ≤ number_of tcp_of guard.session_id r.links)
      → Counted r stats
      → Counted (drop_link guard r stats).0 (drop_link guard r stats).1
  unfolding drop_link
  drop_link-Counted guard r stats held counted =
      elim (Option-cases (get same_number guard.session_id r.links)) [
        | inl e ↦
            rw (drop_link, e)
              (cancel_generation-Counted guard.session_id guard.quic_generation r stats counted)
        | inr (counts, e) ↦
            let number : number_of tcp_of guard.session_id r.links ≡ counts.tcp =
              rw (number_of, e) refl in
            rw (drop_link, e)
              (drop_counted-Counted guard counts r stats e
                (λ c. let some_held = held c in omega (arith, number, some_held)) counted)
      ]
