-- ===== src/Portal/Pairing/Calm.antt =====
-- src/portal/pairing.rs: the operations that leave the waiting halves alone, and let no more
-- claims wait.
use nowhere.Common.{
  ℕ, zero, suc, ◌≡◌, ◌≤◌, refl, sym, ◌∙◌, subst, List, Bool, true, false, not, ◌==◌, ◌&&◌, Option,
  none, some, Bool-cases, Option-cases, ◌⊎◌, inl, inr, arith,
}
use nowhere.Common.Map.{get, count}
use nowhere.Protocol.Setup.{FlowErrorCode}
use nowhere.Portal.Pairing.{FlowKey, same_flow, FlowClaim, Pending, Registry}
use nowhere.Portal.Pairing.Claims.{
  same_number, waits_in, refresh_claim, abandon_claim, activate_claim, finish_flow, drop_permit,
  active_quic_generation, all_current, take_permit, acquire_udp_permit,
}
use nowhere.Portal.Pairing.Reject.{terminal_rejection, reject_downlink, add_tombstone}
use nowhere.Portal.Pairing.Install.{follow_claim, generations_of}
use nowhere.Portal.Pairing.Cancel.{cancel_active_quic_generation}
use nowhere.Portal.Pairing.ClaimLimit.{NotMore, remove-NotMore, put-NotMore}

pub permits_left :
    (o : Option ℕ) → (o ≡ none) ⊎ ((o ≡ some 0) ⊎ ((left : ℕ) × (o ≡ some (suc left))))
permits_left none = inl refl
permits_left (some zero) = inr (inl refl)
permits_left (some (suc left)) = inr (inr (left, refl))

module _ {U D L : Type 0} where
  pub record Calm (r s : Registry U D L) : Type 0 where
    pub same_tcp : s.tcp ≡ r.tcp
    pub same_udp : s.udp ≡ r.udp
    pub same_limit : s.max_pending ≡ r.max_pending
    pub not_more : NotMore r.claims s.claims

  pub Calm-refl : (r : Registry U D L) → Calm r r
  Calm-refl r = record {
    same_tcp = refl;
    same_udp = refl;
    same_limit = refl;
    not_more = λ s. omega arith;
  }

  pub Calm-trans : (r s t : Registry U D L) → Calm r s → Calm s t → Calm r t
  Calm-trans r s t a b = record {
    same_tcp = b.same_tcp ∙ a.same_tcp;
    same_udp = b.same_udp ∙ a.same_udp;
    same_limit = b.same_limit ∙ a.same_limit;
    not_more = λ i. omega (arith, a.not_more i, b.not_more i);
  }

  new_claims-Calm :
      (r : Registry U D L) (claims : List (FlowKey × FlowClaim))
      → NotMore r.claims claims
      → Calm r (record r { claims = claims })
  new_claims-Calm r claims n = record {
    same_tcp = refl;
    same_udp = refl;
    same_limit = refl;
    not_more = n;
  }

  -- A change beside the maps and the claims.
  pub beside :
      (r s : Registry U D L)
      → s.tcp ≡ r.tcp
      → s.udp ≡ r.udp
      → s.max_pending ≡ r.max_pending
      → s.claims ≡ r.claims
      → Calm r s
  beside r s a b c d = record {
    same_tcp = a;
    same_udp = b;
    same_limit = c;
    not_more =
        λ i. subst (λ m. count (waits_in i) m ≤ count (waits_in i) r.claims) (sym d) (omega arith);
  }

  pub drop_permit-Calm : (permit : Option ℕ) (r : Registry U D L) → Calm r (drop_permit permit r)
  unfolding drop_permit
  drop_permit-Calm none r = Calm-refl r
  drop_permit-Calm (some semaphore) r = elim (Option-cases (get same_number semaphore r.permits)) [
    | inl e ↦ rw (drop_permit, e) (Calm-refl r)
    | inr (left, e) ↦ rw (drop_permit, e) (beside r _ refl refl refl refl)
  ]

  pub reject_downlink-Calm :
      (downlink : Option D) (code : FlowErrorCode) (r : Registry U D L)
      → Calm r (reject_downlink downlink code r)
  unfolding reject_downlink
  reject_downlink-Calm none code r = Calm-refl r
  reject_downlink-Calm (some d) code r = beside r _ refl refl refl refl

  pub add_tombstone-Calm :
      (key : FlowKey) (code : FlowErrorCode) (now : ℕ) (r : Registry U D L)
      → Calm r (add_tombstone key code now r)
  unfolding add_tombstone
  add_tombstone-Calm key code now r = beside r _ refl refl refl refl

  pub terminal_rejection-Calm :
      (key : FlowKey) (consume : Bool) (now : ℕ) (r : Registry U D L)
      → Calm r (terminal_rejection key consume now r).1
  unfolding terminal_rejection
  terminal_rejection-Calm key consume now r = beside r _ refl refl refl refl

  pub take_permit-Calm : (semaphore : ℕ) (r : Registry U D L) → Calm r (take_permit semaphore r).1
  unfolding take_permit
  take_permit-Calm semaphore r = elim (permits_left (get same_number semaphore r.permits)) [
    | inl n ↦ rw (take_permit, n) (Calm-refl r)
    | inr (inl z) ↦ rw (take_permit, z) (Calm-refl r)
    | inr (inr (left, l)) ↦ rw (take_permit, l) (beside r _ refl refl refl refl)
  ]

  pub acquire_udp_permit-Calm :
      (session_id : ℕ) (r : Registry U D L) → Calm r (acquire_udp_permit session_id r).1
  unfolding acquire_udp_permit
  acquire_udp_permit-Calm session_id r = elim (Option-cases (get same_number session_id r.links)) [
    | inl e ↦ rw (acquire_udp_permit, e) (Calm-refl r)
    | inr (counts, e) ↦ rw (acquire_udp_permit, e) (take_permit-Calm counts.udp_flow_budget r)
  ]

  pub refresh_claim-Calm : (key : FlowKey) (r : Registry U D L) → Calm r (refresh_claim key r).1
  unfolding refresh_claim
  refresh_claim-Calm key r = elim (Option-cases (get same_flow key r.claims)) [
    | inl e ↦ rw (refresh_claim, e) (beside r _ refl refl refl refl)
    | inr (claim, e) ↦
        rw (refresh_claim, e)
          (record {
            same_tcp = refl;
            same_udp = refl;
            same_limit = refl;
            not_more =
                put-NotMore key claim (record claim { epoch = r.next_epoch }) r.claims e
                  (Bool-cases claim.active);
          })
  ]

  pub abandon_claim-Calm :
      (key : FlowKey) (epoch : ℕ) (r : Registry U D L) → Calm r (abandon_claim key epoch r)
  unfolding abandon_claim
  abandon_claim-Calm key epoch r = elim (Option-cases (get same_flow key r.claims)) [
    | inl e ↦ rw (abandon_claim, e) (Calm-refl r)
    | inr (claim, e) ↦
        rw (abandon_claim, e)
          (elim (Bool-cases (not claim.active && claim.epoch == epoch)) [
            | inl h ↦ rw h (new_claims-Calm r _ (remove-NotMore key r.claims))
            | inr h ↦ rw h (Calm-refl r)
          ])
  ]

  pub finish_flow-Calm :
      (key : FlowKey) (epoch : ℕ) (r : Registry U D L) → Calm r (finish_flow key epoch r)
  unfolding finish_flow
  finish_flow-Calm key epoch r = elim (Option-cases (get same_flow key r.claims)) [
    | inl e ↦ rw (finish_flow, e) (Calm-refl r)
    | inr (claim, e) ↦
        rw (finish_flow, e)
          (elim (Bool-cases (claim.active && claim.epoch == epoch)) [
            | inl h ↦ rw h (new_claims-Calm r _ (remove-NotMore key r.claims))
            | inr h ↦ rw h (Calm-refl r)
          ])
  ]

  pub activate_claim-Calm :
      (key : FlowKey) (epoch : ℕ) (generations : List ℕ) (permit : Option ℕ) (r : Registry U D L)
      → Calm r (activate_claim key epoch generations permit r).1
  unfolding activate_claim
  activate_claim-Calm key epoch generations permit r =
      elim (Bool-cases (not (all_current generations (active_quic_generation key.session_id r)))) [
        | inl h ↦ rw h (Calm-refl r)
        | inr h ↦ rw h (elim (Option-cases (get same_flow key r.claims)) [
          | inl e ↦ rw (activate_claim, e) (Calm-refl r)
          | inr (claim, e) ↦
              rw (activate_claim, e)
                (new_claims-Calm r _ (
                  put-NotMore key claim
                    (record claim { epoch = epoch; active = true; quic_generations = generations })
                    r.claims e (inl refl)))
        ])
      ]

  pub follow_claim-Calm :
      (key : FlowKey) (p : Pending U D L) (gone : Bool) (r : Registry U D L)
      → Calm r (follow_claim key p gone r)
  follow_claim-Calm key p gone r = elim (Option-cases (get same_flow key r.claims)) [
    | inl e ↦ rw (follow_claim, e) (Calm-refl r)
    | inr (claim, e) ↦
        rw (follow_claim, e)
          (elim (Bool-cases claim.active) [
            | inl h ↦ rw h (Calm-refl r)
            | inr h ↦ rw h (elim (Bool-cases gone) [
              | inl g ↦ rw g (new_claims-Calm r _ (remove-NotMore key r.claims))
              | inr g ↦ rw g (
                  new_claims-Calm r _ (
                    put-NotMore key claim
                      (record claim {
                        active = false;
                        target = p.target;
                        quic_generations = generations_of p;
                      })
                      r.claims e (inr h)))
            ])
          ])
  ]

  pub cancel_active-Calm :
      (session_id generation : ℕ) (r : Registry U D L)
      → Calm r (cancel_active_quic_generation session_id generation r)
  unfolding cancel_active_quic_generation
  cancel_active-Calm session_id generation r = beside r _ refl refl refl refl
