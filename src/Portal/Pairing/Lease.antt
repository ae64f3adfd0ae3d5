-- ===== src/Portal/Pairing/Lease.antt =====
-- src/portal/pairing.rs: the claim of a flow that has its lease, behind the steps of other flows.
use nowhere.Common.{
  ℕ, ◌≡◌, refl, sym, ◌∙◌, ap, subst, List, Bool, true, false, not, ◌==◌, ◌&&◌, ◌||◌, leb, Option,
  some, Bool-cases, Option-cases, inl, inr, arith, Result-cases,
}
use nowhere.Common.Map.{get, remove, put, count}
use nowhere.Common.MapKeep.{get-remove}
use nowhere.Protocol.Flow.{FlowRole, FlowKind}
use nowhere.Protocol.Target.{Target}
use nowhere.Portal.Pairing.{
  FlowKey, same_flow, Metadata, same_metadata, LinkHalf, FlowClaim, Pending, Registry,
}
use nowhere.Portal.Pairing.Arms.{Half, fill, Filling-cases}
use nowhere.Portal.Pairing.Claims.{
  is_some, or_target, waits_in, all_current, active_quic_generation, reserve_claim, refresh_claim,
  abandon_claim, activate_claim, finish_flow, target_conflict, drop_permit,
}
use nowhere.Portal.Pairing.Install.{
  follow_claim, entry_or, new_pending, lacks_permit, settle, meet, place,
}
use nowhere.Portal.Pairing.Reject.{pending_of, with_pending}
use nowhere.Portal.Pairing.State.{same_flow_eq}
use nowhere.Portal.Pairing.Beside.{Aside, with_pending-Aside, drop_permit-Aside}

same_flow_trans :
    (i j k : FlowKey) → same_flow i j ≡ true → same_flow i k ≡ true → same_flow j k ≡ true
same_flow_trans i j k a b = ground (arith, a, b)

pub removed_other :
    {V : Type 0} (j k : FlowKey) (m : List (FlowKey × V))
    → same_flow j k ≡ false
    → get same_flow k (remove same_flow j m) ≡ get same_flow k m
removed_other j k m n = get-remove same_flow same_flow_trans j k m n

pub put_other :
    {V : Type 0} (j k : FlowKey) (v : V) (m : List (FlowKey × V))
    → same_flow j k ≡ false
    → get same_flow k (put same_flow j v m) ≡ get same_flow k m
put_other j k v m n = rw n (removed_other j k m n)

module _ {U D L : Type 0} (key : FlowKey) (generations : List ℕ) (token : ℕ) where
  -- The flow has its lease, with these generations and this token.
  pub record Leased (r : Registry U D L) : Type 0 where
    pub claim : FlowClaim
    pub found : get same_flow key r.claims ≡ some claim
    pub active : claim.active ≡ true
    pub carried : claim.quic_generations ≡ generations
    pub cancel : claim.cancel ≡ token

  -- What leaves the entry of the flow.
  pub same_entry :
      (r s : Registry U D L)
      → get same_flow key s.claims ≡ get same_flow key r.claims
      → Leased r
      → Leased s
  same_entry r s e l = record {
    claim = l.claim;
    found = e ∙ l.found;
    active = l.active;
    carried = l.carried;
    cancel = l.cancel;
  }

  pub Aside-Leased : (r s : Registry U D L) → Aside r s → Leased r → Leased s
  Aside-Leased r s aside l = same_entry r s (ap (get same_flow key) aside.claims) l

  -- The claim of a key that is the flow's is the active one.
  claim_of :
      (k : FlowKey) (r : Registry U D L) (l : Leased r)
      → same_flow k key ≡ true
      → get same_flow k r.claims ≡ some l.claim
  claim_of k r l h =
      subst (λ i. get same_flow i r.claims ≡ some l.claim) (sym (same_flow_eq k key h)) l.found

  pub follow_claim-Leased :
      (k : FlowKey) (p : Pending U D L) (gone : Bool) (r : Registry U D L)
      → Leased r
      → Leased (follow_claim k p gone r)
  follow_claim-Leased k p gone r l = elim (Bool-cases (same_flow k key)) [
    | inl h ↦ rw (follow_claim, claim_of k r l h, l.active) l
    | inr h ↦ elim (Option-cases (get same_flow k r.claims)) [
      | inl e ↦ rw (follow_claim, e) l
      | inr (claim, e) ↦ elim (Bool-cases claim.active) [
        | inl a ↦ rw (follow_claim, e, a) l
        | inr a ↦ elim (Bool-cases gone) [
          | inl g ↦ rw (follow_claim, e, a, g) (same_entry r _ (removed_other k key r.claims h) l)
          | inr g ↦ rw (follow_claim, e, a, g) (same_entry r _ (put_other k key _ r.claims h) l)
        ]
      ]
    ]
  ]

  pub reserve_claim-Leased :
      (k : FlowKey) (metadata : Metadata) (target : Option Target) (generation : Option ℕ)
      (r : Registry U D L)
      → Leased r
      → Leased (reserve_claim k metadata target generation r).1
  unfolding reserve_claim
  reserve_claim-Leased k metadata target generation r l = elim (Bool-cases (same_flow k key)) [
    | inl h ↦ rw (reserve_claim, claim_of k r l h, l.active) l
    | inr h ↦ elim (Option-cases (get same_flow k r.claims)) [
      | inl e ↦ elim (Bool-cases (leb r.max_pending (count (waits_in k.session_id) r.claims))) [
        | inl full ↦ rw (reserve_claim, e, full) l
        | inr free ↦ rw (reserve_claim, e, free) (same_entry r _ (put_other k key _ r.claims h) l)
      ]
      | inr (claim, e) ↦
          elim (Bool-cases (claim.active || not (same_metadata claim.metadata metadata))) [
            | inl c ↦ rw (reserve_claim, e, c) l
            | inr c ↦ elim (Bool-cases (target_conflict claim.target target)) [
              | inl t ↦ rw (reserve_claim, e, c, t) l
              | inr t ↦
                  rw (reserve_claim, e, c, t) (same_entry r _ (put_other k key _ r.claims h) l)
            ]
          ]
    ]
  ]

  pub abandon_claim-Leased :
      (k : FlowKey) (epoch : ℕ) (r : Registry U D L) → Leased r → Leased (abandon_claim k epoch r)
  unfolding abandon_claim
  abandon_claim-Leased k epoch r l = elim (Bool-cases (same_flow k key)) [
    | inl h ↦ rw (abandon_claim, claim_of k r l h, l.active) l
    | inr h ↦ elim (Option-cases (get same_flow k r.claims)) [
      | inl e ↦ rw (abandon_claim, e) l
      | inr (claim, e) ↦ elim (Bool-cases (not claim.active && claim.epoch == epoch)) [
        | inl a ↦ rw (abandon_claim, e, a) (same_entry r _ (removed_other k key r.claims h) l)
        | inr a ↦ rw (abandon_claim, e, a) l
      ]
    ]
  ]

  pub finish_flow-Leased :
      (k : FlowKey) (epoch : ℕ) (r : Registry U D L)
      → same_flow k key ≡ false
      → Leased r
      → Leased (finish_flow k epoch r)
  unfolding finish_flow
  finish_flow-Leased k epoch r h l = elim (Option-cases (get same_flow k r.claims)) [
    | inl e ↦ rw (finish_flow, e) l
    | inr (claim, e) ↦ elim (Bool-cases (claim.active && claim.epoch == epoch)) [
      | inl a ↦ rw (finish_flow, e, a) (same_entry r _ (removed_other k key r.claims h) l)
      | inr a ↦ rw (finish_flow, e, a) l
    ]
  ]

  pub activate_claim-Leased :
      (k : FlowKey) (epoch : ℕ) (gs : List ℕ) (permit : Option ℕ) (r : Registry U D L)
      → same_flow k key ≡ false
      → Leased r
      → Leased (activate_claim k epoch gs permit r).1
  unfolding activate_claim
  activate_claim-Leased k epoch gs permit r h l =
      elim (Bool-cases (all_current gs (active_quic_generation k.session_id r))) [
        | inr c ↦ rw (activate_claim, c) l
        | inl c ↦ elim (Option-cases (get same_flow k r.claims)) [
          | inl e ↦ rw (activate_claim, c, e) l
          | inr (claim, e) ↦
              rw (activate_claim, c, e) (same_entry r _ (put_other k key _ r.claims h) l)
        ]
      ]

  refresh_claim-Leased :
      (k : FlowKey) (r : Registry U D L) → Leased r → Leased (refresh_claim k r).1
  unfolding refresh_claim
  refresh_claim-Leased k r l = elim (Bool-cases (same_flow k key)) [
    | inl h ↦
        rw (refresh_claim, claim_of k r l h)
          (record {
            claim = record l.claim { epoch = r.next_epoch };
            found = rw h refl;
            active = l.active;
            carried = l.carried;
            cancel = l.cancel;
          })
    | inr h ↦ elim (Option-cases (get same_flow k r.claims)) [
      | inl e ↦ rw (refresh_claim, e) (same_entry r _ refl l)
      | inr (claim, e) ↦ rw (refresh_claim, e) (same_entry r _ (put_other k key _ r.claims h) l)
    ]
  ]

  put-Leased :
      (kind : FlowKind) (m : List (FlowKey × Pending U D L)) (r : Registry U D L)
      → Leased r
      → Leased (with_pending kind m r)
  put-Leased kind m r l = Aside-Leased r (with_pending kind m r) (with_pending-Aside kind m r) l

  freed-Leased :
      (permit : Option ℕ) (kind : FlowKind) (m : List (FlowKey × Pending U D L))
      (r : Registry U D L)
      → Leased r
      → Leased (drop_permit permit (with_pending kind m r))
  freed-Leased permit kind m r l =
      Aside-Leased (with_pending kind m r) (drop_permit permit (with_pending kind m r))
        (drop_permit-Aside permit (with_pending kind m r)) (put-Leased kind m r l)

  settle-Leased :
      (kind : FlowKind) (k : FlowKey) (p : Pending U D L) (r : Registry U D L)
      → Leased r
      → Leased (settle kind k p r).0
  unfolding settle
  settle-Leased kind k p r l =
      let refreshed = refresh_claim-Leased k r l in
      elim (Bool-cases (is_some p.uplink && is_some p.downlink)) [
        | inl both ↦ elim (Bool-cases (lacks_permit kind p)) [
          | inl n ↦ rw (settle, both, n) (abandon_claim-Leased k p.epoch _ (put-Leased kind _ r l))
          | inr n ↦ rw (settle, both, n) (put-Leased kind _ r l)
        ]
        | inr one ↦ elim (Result-cases (refresh_claim k r).0) [
          | inl (epoch, e) ↦ rw (settle, one, e) (put-Leased kind _ (refresh_claim k r).1 refreshed)
          | inr (code, e) ↦
              rw (settle, one, e)
                (freed-Leased p.flow_permit kind _ (refresh_claim k r).1 refreshed)
        ]
      ]

  pub place-Leased :
      (kind : FlowKind) (k : FlowKey) (role : FlowRole) (metadata : Metadata)
      (target : Option Target) (link : LinkHalf) (half : Half U D L) (permit : Option ℕ) (epoch : ℕ)
      (r : Registry U D L)
      → Leased r
      → Leased (place kind k role metadata target link half permit epoch r).0
  unfolding place meet
  place-Leased kind k role metadata target link half permit epoch r l =
      let new = new_pending epoch metadata (active_quic_generation k.session_id r) target in
      let p = entry_or new (get same_flow k (pending_of kind r)) in
      let p' : Pending U D L = record p { target = or_target p.target target } in
      elim (Bool-cases (same_metadata p.metadata metadata)) [
        | inr h ↦ rw (place, meet, h) (freed-Leased permit kind _ r l)
        | inl h ↦ elim (Filling-cases (fill kind role link half permit p')) [
          | inl (q, f) ↦ rw (place, meet, h, f) (settle-Leased kind k q r l)
          | inr (inl (d, f)) ↦ rw (place, meet, h, f) (freed-Leased permit kind _ r l)
          | inr (inr f) ↦ rw (place, meet, h, f) (freed-Leased permit kind _ r l)
        ]
      ]
