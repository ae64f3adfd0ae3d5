-- ===== src/Portal/Pairing/LinkSteps.antt =====
-- src/portal/pairing/link.rs: the registrations of carriers and the drops of their guards in any
-- order, by any tasks.
use nowhere.Common.{
  ℕ, ◌+◌, ◌≡◌, ◌≤◌, refl, sym, ap, ◌∙◌, subst, List, [], ◌∷◌, ◌++◌, ◌==◌, ==_iff, Option, none,
  some, Bool-cases, Option-cases, inl, inr, arith, if◌then◌else◌,
}
use nowhere.Common.Map.{get}
use nowhere.Protocol.Flow.{Carrier, tls_tcp, quic}
use nowhere.Portal.Pairing.{LinkCounts, Registry, same_generation}
use nowhere.Portal.Pairing.Claims.{same_number}
use nowhere.Portal.Pairing.Cancel.{cancel_active_quic_generation}
use nowhere.Portal.Pairing.Links.{
  LinkStats, LinkGuard, link_entry, register_tcp_link, install_quic_link, without_carrier, unlink,
  cancel_generation, drop_counted, drop_link,
}
use nowhere.Portal.Pairing.Relink.{carriers}
use nowhere.Portal.Pairing.LinkSums.{tcp_of, number_of, number_of-put, number_of-without_entry}
use nowhere.Portal.Pairing.LinkCount.{
  Counted, Carried, active_udp, tls_guards, link_entry-links, link_entry-number,
  register_tcp_link-Counted, install_quic_link-Counted, drop_link-Counted,
}

tls_guards-drop :
    (i : ℕ) (before after : List LinkGuard) (guard : LinkGuard)
    → tls_guards i (before ++ (guard ∷ after))
      ≡ tls_guards i (guard ∷ []) + tls_guards i (before ++ after)
tls_guards-drop i [] after guard = omega arith
tls_guards-drop i (g ∷ before) after guard =
    let rest = tls_guards-drop i before after guard in omega (arith, rest)

module _ {U D L : Type 0} where
  -- The guards that are alive, the registry and the counters.
  pub data LinkReach (start : Registry U D L)
      : List LinkGuard → Registry U D L → LinkStats → Type 0 where
    starts : LinkReach start [] start (record { link_tcp = 0; link_udp = 0; link_pairs = 0 })
    connects_tcp :
        (s : ℕ) (guards : List LinkGuard) (r : Registry U D L) (stats : LinkStats)
        → LinkReach start guards r stats
        → LinkReach start
            ((register_tcp_link s r stats).0 ∷ guards)
            (register_tcp_link s r stats).1
            (register_tcp_link s r stats).2
    connects_quic :
        (s : ℕ) (guards : List LinkGuard) (r : Registry U D L) (stats : LinkStats)
        → LinkReach start guards r stats
        → LinkReach start
            ((install_quic_link s r stats).0 ∷ guards)
            (install_quic_link s r stats).2
            (install_quic_link s r stats).3
    drops :
        (before after : List LinkGuard) (guard : LinkGuard) (r : Registry U D L) (stats : LinkStats)
        → LinkReach start (before ++ (guard ∷ after)) r stats
        → LinkReach start (before ++ after) (drop_link guard r stats).0 (drop_link guard r stats).1

  -- A session's TLS carriers are those whose guards are alive.
  abbrev Held : List LinkGuard → Registry U D L → Type 0
  Held guards r = (i : ℕ) → number_of tcp_of i r.links ≡ tls_guards i guards

  register_tcp_link-Held :
      (s : ℕ) (guards : List LinkGuard) (r : Registry U D L) (stats : LinkStats)
      → Held guards r
      → Held ((register_tcp_link s r stats).0 ∷ guards) (register_tcp_link s r stats).1
  unfolding register_tcp_link
  register_tcp_link-Held s guards r stats held i =
      let new = record (link_entry s r).0 { tcp = (link_entry s r).0.tcp + 1 } in
      let number = number_of-put tcp_of s i new r.links in
      let old = link_entry-number tcp_of s r refl in
      rw (link_entry-links s r) (
        number ∙ elim (Bool-cases (s == i)) [
          | inl h ↦
              let same : number_of tcp_of s r.links ≡ tls_guards i guards =
                subst (λ j. number_of tcp_of j r.links ≡ tls_guards i guards)
                  (sym ((==_iff s i).0 h)) (held i) in
              rw h (omega (arith, same, old))
          | inr h ↦ let same = held i in rw h (omega (arith, same))
        ])

  install_quic_link-Held :
      (s : ℕ) (guards : List LinkGuard) (r : Registry U D L) (stats : LinkStats)
      → Held guards r
      → Held ((install_quic_link s r stats).0 ∷ guards) (install_quic_link s r stats).2
  unfolding install_quic_link
  install_quic_link-Held s guards r stats held i =
      let r' = record r { next_quic_generation = r.next_quic_generation + 1 } in
      let new = record (link_entry s r').0 { udp = some r.next_quic_generation } in
      let number = number_of-put tcp_of s i new r.links in
      let old = link_entry-number tcp_of s r' refl in
      rw (link_entry-links s r') (
        number ∙ elim (Bool-cases (s == i)) [
          | inl h ↦
              let same : number_of tcp_of s r.links ≡ tls_guards i guards =
                subst (λ j. number_of tcp_of j r.links ≡ tls_guards i guards)
                  (sym ((==_iff s i).0 h)) (held i) in
              rw h (omega (arith, same, old))
          | inr h ↦ let same = held i in rw h (omega (arith, same))
        ])

  unlink-number :
      (s : ℕ) (carrier : Carrier) (counts : LinkCounts) (r : Registry U D L) (stats : LinkStats)
      (i : ℕ)
      → get same_number s r.links ≡ some counts
      → Carried carrier counts
      → number_of tcp_of i r.links
        ≡ (elim carrier [ tls_tcp ↦ (if s == i then 1 else 0) | quic ↦ 0 ])
          + number_of tcp_of i (unlink s carrier counts r stats).0.links
  unfolding unlink
  unlink-number s tls_tcp counts r stats i e c =
      let number = number_of-without_entry s i (without_carrier tls_tcp counts) r.links in
      let all : number_of tcp_of s r.links ≡ counts.tcp = rw (number_of, e) refl in
      elim (Bool-cases (s == i)) [
        | inl h ↦
            let whole =
              subst (λ j. number_of tcp_of j r.links ≡ counts.tcp) ((==_iff s i).0 h) all in
            ground (arith, whole, number, h, c)
        | inr h ↦ ground (arith, number, h)
      ]
  unlink-number s quic counts r stats i e c =
      let number = number_of-without_entry s i (without_carrier quic counts) r.links in
      let all : number_of tcp_of s r.links ≡ counts.tcp = rw (number_of, e) refl in
      elim (Bool-cases (s == i)) [
        | inl h ↦
            let whole =
              subst (λ j. number_of tcp_of j r.links ≡ counts.tcp) ((==_iff s i).0 h) all in
            ground (arith, whole, number, h)
        | inr h ↦ ground (arith, number, h)
      ]

  cancel_generation-links :
      (s : ℕ) (generation : Option ℕ) (r : Registry U D L)
      → (cancel_generation s generation r).links ≡ r.links
  unfolding cancel_active_quic_generation
  cancel_generation-links s none r = refl
  cancel_generation-links s (some generation) r = refl

  -- The guard that is dropped, where it is of a TLS carrier, is one of its session's.
  drop_link-number :
      (guard : LinkGuard) (r : Registry U D L) (stats : LinkStats) (i : ℕ)
      → (guard.carrier ≡ tls_tcp → 1 ≤ number_of tcp_of guard.session_id r.links)
      → number_of tcp_of i r.links
        ≡ (elim guard.carrier [ tls_tcp ↦ (if guard.session_id == i then 1 else 0) | quic ↦ 0 ])
          + number_of tcp_of i (drop_link guard r stats).0.links
  unfolding drop_link drop_counted
  drop_link-number guard r stats i held =
      let s = guard.session_id in
      let cancelled : (g : Option ℕ) (q : Registry U D L)
          → number_of tcp_of i (cancel_generation s g q).links ≡ number_of tcp_of i q.links =
        λ g q. ap (number_of tcp_of i) (cancel_generation-links s g q) in
      elim (Option-cases (get same_number s r.links)) [
        | inl e ↦ elim (carriers guard.carrier) [
          | inl c ↦
              let none_held : number_of tcp_of s r.links ≡ 0 = rw (number_of, e) refl in
              let some_held = held c in omega (arith, none_held, some_held)
          | inr c ↦
              let same = cancelled guard.quic_generation r in
              rw (drop_link, e, c) (omega (arith, same))
        ]
        | inr (counts, e) ↦ elim (carriers guard.carrier) [
          | inl c ↦
              let all : number_of tcp_of s r.links ≡ counts.tcp = rw (number_of, e) refl in
              let carried : 1 ≤ counts.tcp =
                let some_held = held c in omega (arith, all, some_held) in
              let left = unlink-number s tls_tcp counts r stats i e carried in
              let same = cancelled guard.quic_generation (unlink s tls_tcp counts r stats).0 in
              rw (drop_link, e, drop_counted, c) (omega (arith, left, same))
          | inr c ↦ elim (Option-cases guard.quic_generation) [
            | inl n ↦ rw (drop_link, e, drop_counted, c, n) (omega arith)
            | inr (g, q) ↦ elim (Bool-cases (same_generation counts.udp (some g))) [
              | inr h ↦
                  let same = cancelled (some g) r in
                  rw (drop_link, e, drop_counted, c, q, h) (omega (arith, same))
              | inl h ↦
                  let left = unlink-number s quic counts r stats i e (active_udp counts.udp g h) in
                  let same = cancelled (some g) (unlink s quic counts r stats).0 in
                  rw (drop_link, e, drop_counted, c, q, h) (omega (arith, left, same))
            ]
          ]
        ]
      ]

  -- From a registry without carriers and counters at 0, after any sequence of registrations and of
  -- drops of guards that are alive: every session has one entry, link_tcp, link_udp and link_pairs
  -- are the sums over the sessions of the TLS carriers, of those with a QUIC carrier and of those
  -- with both, and each session counts the TLS carriers whose guards are alive.
  pub LinkReach-sums :
      (start : Registry U D L) (guards : List LinkGuard) (r : Registry U D L) (stats : LinkStats)
      → start.links ≡ []
      → LinkReach start guards r stats
      → Counted r stats × Held guards r
  LinkReach-sums start _ _ _ e starts = (
    record { one = rw e tt; tcp_sum = rw e refl; udp_sum = rw e refl; pair_sum = rw e refl },
    λ i. rw e refl,
  )
  LinkReach-sums start _ _ _ e (connects_tcp s guards r stats reach) =
      let (counted, held) = LinkReach-sums start guards r stats e reach in
      (register_tcp_link-Counted s r stats counted, register_tcp_link-Held s guards r stats held)
  LinkReach-sums start _ _ _ e (connects_quic s guards r stats reach) =
      let (counted, held) = LinkReach-sums start guards r stats e reach in
      (install_quic_link-Counted s r stats counted, install_quic_link-Held s guards r stats held)
  LinkReach-sums start _ _ _ e (drops before after guard r stats reach) =
      let (counted, held) = LinkReach-sums start (before ++ (guard ∷ after)) r stats e reach in
      let live : guard.carrier ≡ tls_tcp → 1 ≤ number_of tcp_of guard.session_id r.links = λ c.
        let all = held guard.session_id in
        let split = tls_guards-drop guard.session_id before after guard in
        let own : tls_guards guard.session_id (guard ∷ []) ≡ 1 = rw c (ground arith) in
        omega (arith, all, split, own) in
      (
        drop_link-Counted guard r stats live counted,
        λ i.
            let all = held i in
            let split = tls_guards-drop i before after guard in
            let left = drop_link-number guard r stats i live in omega (arith, all, split, left),
      )
