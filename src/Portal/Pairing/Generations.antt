-- ===== src/Portal/Pairing/Generations.antt =====
-- src/portal/pairing.rs: the leases of flows that QUIC carries, and what is cancelled where the
-- carrier is replaced.
use nowhere.Common.{
  ℕ, ◌≡◌, refl, sym, ap, ◌∙◌, subst, List, [], ◌∷◌, ◌++◌, true, not, ◌==◌, ◌&&◌, Option, none, some,
  Bool-cases, Option-cases, inl, inr, arith, if◌then◌else◌, ok, err,
}
use nowhere.Common.Map.{get}
use nowhere.Protocol.Setup.{FlowErrorCode}
use nowhere.Portal.Pairing.{FlowKey, same_flow, FlowClaim, FlowLease, Registry}
use nowhere.Portal.Pairing.Claims.{
  same_number, is_some, contains_generation, all_current, active_quic_generation, activate_claim,
  drop_permit,
}
use nowhere.Portal.Pairing.Reject.{
  is_active, downlink_of, permit_of, add_tombstone, reject_downlink, take_pending,
  reject_flow_setup,
}
use nowhere.Portal.Pairing.Cancel.{
  tokens_of, cancel_active_quic_generation, reject_all, snapshot_keys, extend_keys,
  purge_quic_generation, replace_quic_generation,
}

pub contains-append :
    (t : ℕ) (xs ys : List ℕ)
    → contains_generation t ys ≡ true
    → contains_generation t (xs ++ ys) ≡ true
contains-append t [] ys c = c
contains-append t (x ∷ xs) ys c = ground (arith, contains-append t xs ys c)

pub same_flow_refl : (k : FlowKey) → same_flow k k ≡ true
same_flow_refl k = ground arith

-- The token of an active claim of the generation is among those that are cancelled.
pub get-tokens_of :
    (k : FlowKey) (generation : ℕ) (m : List (FlowKey × FlowClaim)) (claim : FlowClaim)
    → get same_flow k m ≡ some claim
    → claim.active ≡ true
    → contains_generation generation claim.quic_generations ≡ true
    → contains_generation claim.cancel (tokens_of k.session_id generation m) ≡ true
get-tokens_of k generation [] claim e a c = cc
get-tokens_of k generation ((j, other) ∷ m) claim e a c = elim (Bool-cases (same_flow j k)) [
  | inl h ↦
      let rest = tokens_of k.session_id generation m in
      let one : other ≡ claim = ground arith in
      let same : (j.session_id == k.session_id) ≡ true = ground arith in
      subst
        (λ o.
          contains_generation claim.cancel (
            if j.session_id == k.session_id
              && o.active
              && contains_generation generation o.quic_generations
            then o.cancel ∷ rest
            else rest)
          ≡ true)
        (sym one) (rw (same, a, c) (ground arith))
  | inr h ↦
      let later = get-tokens_of k generation m claim (ground (arith, e, h)) a c in
      elim (Bool-cases (
        j.session_id == k.session_id
        && other.active
        && contains_generation generation other.quic_generations)) [
          | inl t ↦ rw t (ground (arith, later))
          | inr t ↦ rw t later
        ]
]

module _ {U D L : Type 0} where
  drop_permit-cancelled :
      (permit : Option ℕ) (r : Registry U D L) → (drop_permit permit r).cancelled ≡ r.cancelled
  unfolding drop_permit
  drop_permit-cancelled none r = refl
  drop_permit-cancelled (some semaphore) r =
      elim (Option-cases (get same_number semaphore r.permits)) [
        | inl e ↦ rw (drop_permit, e) refl
        | inr (left, e) ↦ rw (drop_permit, e) refl
      ]

  reject_downlink-cancelled :
      (downlink : Option D) (code : FlowErrorCode) (r : Registry U D L)
      → (reject_downlink downlink code r).cancelled ≡ r.cancelled
  unfolding reject_downlink
  reject_downlink-cancelled none code r = refl
  reject_downlink-cancelled (some d) code r = refl

  take_pending-cancelled :
      (key : FlowKey) (code : FlowErrorCode) (now : ℕ) (r : Registry U D L)
      → (take_pending key code now r).cancelled ≡ r.cancelled
  unfolding take_pending add_tombstone
  take_pending-cancelled key code now r =
      elim (Bool-cases (
        not (is_some (downlink_of (get same_flow key r.tcp)))
        && not (is_some (downlink_of (get same_flow key r.udp))))) [
          | inl h ↦ rw (take_pending, h) refl
          | inr h ↦ rw (take_pending, h) refl
        ]

  reject_flow_setup-cancelled :
      (session_id flow_id : ℕ) (code : FlowErrorCode) (now : ℕ) (r : Registry U D L)
      → (reject_flow_setup session_id flow_id code now r).cancelled ≡ r.cancelled
  unfolding reject_flow_setup
  reject_flow_setup-cancelled session_id flow_id code now r =
      let key : FlowKey = record { session_id = session_id; flow_id = flow_id } in
      let taken = take_pending key code now r in
      let freed = drop_permit (permit_of (get same_flow key r.udp)) taken in
      let tcp_told = reject_downlink (downlink_of (get same_flow key r.tcp)) code freed in
      let same : (reject_downlink (downlink_of (get same_flow key r.udp)) code tcp_told).cancelled
          ≡ r.cancelled =
        reject_downlink-cancelled (downlink_of (get same_flow key r.udp)) code tcp_told
        ∙ reject_downlink-cancelled (downlink_of (get same_flow key r.tcp)) code freed
        ∙ drop_permit-cancelled (permit_of (get same_flow key r.udp)) taken
        ∙ take_pending-cancelled key code now r in
      elim (Bool-cases (is_active key r)) [
        | inl h ↦ rw (reject_flow_setup, h) refl
        | inr h ↦ rw (reject_flow_setup, h) same
      ]

  reject_all-cancelled :
      (keys : List FlowKey) (code : FlowErrorCode) (now : ℕ) (r : Registry U D L)
      → (reject_all keys code now r).cancelled ≡ r.cancelled
  reject_all-cancelled [] code now r = refl
  reject_all-cancelled (k ∷ keys) code now r =
      reject_all-cancelled keys code now (reject_flow_setup k.session_id k.flow_id code now r)
      ∙ reject_flow_setup-cancelled k.session_id k.flow_id code now r

  -- What a replaced generation cancels.
  pub replace_quic_generation-cancelled :
      (session_id generation now : ℕ) (r : Registry U D L)
      → (replace_quic_generation session_id generation now r).cancelled
        ≡ r.cancelled ++ tokens_of session_id generation r.claims
  unfolding replace_quic_generation purge_quic_generation cancel_active_quic_generation
  replace_quic_generation-cancelled session_id generation now r =
      let r' = cancel_active_quic_generation session_id generation r in
      reject_all-cancelled
        (extend_keys (snapshot_keys session_id generation r'.tcp)
          (snapshot_keys session_id generation r'.udp))
        FlowErrorCode.session_replaced now r'

  -- The claim that a lease leaves.
  pub activate_claim-get :
      (key : FlowKey) (epoch : ℕ) (generations : List ℕ) (permit : Option ℕ) (r : Registry U D L)
      (lease : FlowLease)
      → (activate_claim key epoch generations permit r).0 ≡ ok lease
      → (claim : FlowClaim) × (get same_flow key
            (activate_claim key epoch generations permit r).1.claims
          ≡ some claim)
        × (claim.active ≡ true)
        × (claim.quic_generations ≡ generations)
        × (claim.cancel ≡ lease.cancel)
  unfolding activate_claim
  activate_claim-get key epoch generations permit r lease e =
      elim (Bool-cases (all_current generations (active_quic_generation key.session_id r))) [
        | inr h ↦
            let no : (activate_claim key epoch generations permit r).0
                ≡ err FlowErrorCode.session_replaced =
              rw (activate_claim, h) refl in
            cc
        | inl h ↦ elim (Option-cases (get same_flow key r.claims)) [
          | inl f ↦
              let no : (activate_claim key epoch generations permit r).0
                  ≡ err FlowErrorCode.internal_error =
                rw (activate_claim, h, f) refl in
              cc
          | inr (claim, f) ↦
              let given : FlowLease = record {
                key = key;
                epoch = epoch;
                cancel = claim.cancel;
                udp_permit = permit;
              } in
              let left : (activate_claim key epoch generations permit r).0 ≡ ok given =
                rw (activate_claim, h, f) refl in
              let same : given ≡ lease = cc in
              let new : FlowClaim = record claim {
                epoch = epoch;
                active = true;
                quic_generations = generations;
              } in
              (
                new,
                rw (activate_claim, h, f, same_flow_refl key) refl,
                refl,
                refl,
                ap (λ l. l.cancel) same,
              )
        ]
      ]
