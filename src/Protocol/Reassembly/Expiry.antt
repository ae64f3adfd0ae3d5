-- ===== src/Protocol/Reassembly/Expiry.antt =====
-- src/protocol/datagram.rs, `expire`: the next expiry, and the slots that a sweep leaves.
use nowhere.Common.{
  ℕ, ◌+◌, ◌-◌, ◌≡◌, ◌≤◌, ◌<◌, refl, List, [], ◌∷◌, leb, Option, none, some, inl, inr, Bool-cases,
  leb→le, arith,
}
use nowhere.Protocol.Reassembly.{
  Key, Slot, Reassembler, checked_add, earlier, first_expiry, new_expiry, fresh_slots, is_fresh,
  sweep, expire_at, expire,
}
use nowhere.Protocol.Reassembly.State.{DueBy, AllSlots, IsValid}
use nowhere.Protocol.Reassembly.Sums.{fresh_slots_sums, fresh_slots-Distinct}
use nowhere.Protocol.Reassembly.Slots.{fresh_slots-AllSlots, AllSlots-map}

DueBy-earlier_left : (a b : Option ℕ) → DueBy (earlier a b) a
DueBy-earlier_left none b = tt
DueBy-earlier_left (some a) none = omega arith
DueBy-earlier_left (some a) (some b) = omega arith

DueBy-earlier_right : (a b t : Option ℕ) → DueBy b t → DueBy (earlier a b) t
DueBy-earlier_right a b none d = tt
DueBy-earlier_right a none (some t) d = absurd d
DueBy-earlier_right none (some b) (some t) d = d
DueBy-earlier_right (some a) (some b) (some t) d = omega arith

pub DueBy-new_expiry :
    (instant_max now ttl : ℕ) (next t : Option ℕ)
    → DueBy next t
    → DueBy (some (new_expiry instant_max now ttl next)) t
DueBy-new_expiry instant_max now ttl next none d = tt
DueBy-new_expiry instant_max now ttl none (some t) d = absurd d
DueBy-new_expiry instant_max now ttl (some next) (some t) d = omega arith

pub DueBy-new_expiry_self :
    (instant_max now ttl : ℕ) (next : Option ℕ)
    → DueBy (some (new_expiry instant_max now ttl next)) (checked_add instant_max now ttl)
DueBy-new_expiry_self instant_max now ttl none = ground arith
DueBy-new_expiry_self instant_max now ttl (some next) = ground arith

due_none :
    (instant_max created ttl : ℕ)
    → DueBy none (checked_add instant_max created ttl)
    → instant_max < created + ttl
due_none instant_max created ttl d = elim (Bool-cases (leb (created + ttl) instant_max)) [
  | inl h ↦ absurd (rw h at d)
  | inr h ↦ ground arith
]

due_some :
    (instant_max created ttl next now : ℕ)
    → now ≤ instant_max
    → now ≤ next
    → DueBy (some next) (checked_add instant_max created ttl)
    → now ≤ created + ttl
due_some instant_max created ttl next now h k d =
    elim (Bool-cases (leb (created + ttl) instant_max)) [
      | inl e ↦ let due : next ≤ created + ttl = rw e at d in omega arith
      | inr e ↦ ground arith
    ]

-- The time to live of the slot is not over.
abbrev pub IsFresh : {R : Type 0} → ℕ → ℕ → Slot R → Type 0
IsFresh now ttl slot = now ≤ slot.created_at + ttl

module _ {R : Type 0} (instant_max : ℕ) where
  first_expiry-AllSlots :
      (ttl : ℕ) (slots : List (Key × Slot R))
      → AllSlots
          (λ slot.
            DueBy
              (first_expiry instant_max ttl slots)
              (checked_add instant_max slot.created_at ttl))
          slots
  first_expiry-AllSlots ttl [] = tt
  first_expiry-AllSlots ttl ((k, s) ∷ slots) =
      let here = checked_add instant_max s.created_at ttl in
      let rest = first_expiry instant_max ttl slots in
      (
        DueBy-earlier_left here rest,
        AllSlots-map (λ slot. DueBy rest (checked_add instant_max slot.created_at ttl))
            (λ slot. DueBy (earlier here rest) (checked_add instant_max slot.created_at ttl)) slots
            (λ slot. DueBy-earlier_right here rest (checked_add instant_max slot.created_at ttl))
            (first_expiry-AllSlots ttl slots),
      )

  sweep-IsValid :
      (now : ℕ) (r : Reassembler R)
      → IsValid instant_max r
      → IsValid instant_max (sweep instant_max now r)
  unfolding sweep
  sweep-IsValid now r v =
      let ttl = r.config.ttl in
      let (bytes, count) = fresh_slots_sums ttl now r.slots in
      record {
        reserved = omega (arith, v.reserved);
        bounded = omega (arith, v.bounded);
        room = omega (arith, v.room);
        distinct = fresh_slots-Distinct ttl now r.slots v.distinct;
        partials = fresh_slots-AllSlots _ ttl now r.slots v.partials;
        due = first_expiry-AllSlots ttl (fresh_slots ttl now r.slots);
      }

  expire_at-IsValid :
      (now : ℕ) (next : Option ℕ) (r : Reassembler R)
      → IsValid instant_max r
      → IsValid instant_max (expire_at instant_max now next r).0
  unfolding expire_at
  expire_at-IsValid now none r v = v
  expire_at-IsValid now (some next) r v = elim (Bool-cases (leb now next)) [
    | inl h ↦ rw h v
    | inr h ↦ rw h (sweep-IsValid now r v)
  ]

  pub expire-IsValid :
      (now : ℕ) (r : Reassembler R)
      → IsValid instant_max r
      → IsValid instant_max (expire instant_max now r).0
  unfolding expire
  expire-IsValid now r v = expire_at-IsValid now r.next_expiry r v

  sweep_config : (now : ℕ) (r : Reassembler R) → (sweep instant_max now r).config ≡ r.config
  unfolding sweep
  sweep_config now r = refl

  expire_at_config :
      (now : ℕ) (next : Option ℕ) (r : Reassembler R)
      → (expire_at instant_max now next r).0.config ≡ r.config
  unfolding expire_at
  expire_at_config now none r = refl
  expire_at_config now (some next) r = elim (Bool-cases (leb now next)) [
    | inl h ↦ rw h refl
    | inr h ↦ rw h (sweep_config now r)
  ]

  pub expire_config : (now : ℕ) (r : Reassembler R) → (expire instant_max now r).0.config ≡ r.config
  unfolding expire
  expire_config now r = expire_at_config now r.next_expiry r

  fresh_slots-IsFresh :
      (ttl now : ℕ) (slots : List (Key × Slot R))
      → AllSlots (IsFresh now ttl) (fresh_slots ttl now slots)
  fresh_slots-IsFresh ttl now [] = tt
  fresh_slots-IsFresh ttl now ((k, s) ∷ slots) = elim (Bool-cases (is_fresh ttl now s)) [
    | inl h ↦
        rw h (omega (arith, leb→le (now - s.created_at) ttl h), fresh_slots-IsFresh ttl now slots)
    | inr h ↦ rw h (fresh_slots-IsFresh ttl now slots)
  ]

  expire_at-IsFresh :
      (now : ℕ) (next : Option ℕ) (r : Reassembler R)
      → now ≤ instant_max
      → AllSlots (λ slot. DueBy next (checked_add instant_max slot.created_at r.config.ttl)) r.slots
      → AllSlots (IsFresh now r.config.ttl) (expire_at instant_max now next r).0.slots
  unfolding expire_at sweep
  expire_at-IsFresh now none r h d =
      AllSlots-map _ (IsFresh now r.config.ttl) r.slots
        (λ slot e. omega (arith, due_none instant_max slot.created_at r.config.ttl e)) d
  expire_at-IsFresh now (some next) r h d = elim (Bool-cases (leb now next)) [
    | inl k ↦ rw k (
        AllSlots-map _ (IsFresh now r.config.ttl) r.slots
          (λ slot e.
            due_some instant_max slot.created_at r.config.ttl next now h (leb→le now next k) e)
          d)
    | inr k ↦ rw k (fresh_slots-IsFresh r.config.ttl now r.slots)
  ]

  -- On a sound reassembler, no slot that `expire` keeps is older than the time to live, also
  -- where it returns early because the next expiry has not come.
  pub expire-IsFresh :
      (now : ℕ) (r : Reassembler R)
      → now ≤ instant_max
      → IsValid instant_max r
      → AllSlots (IsFresh now r.config.ttl) (expire instant_max now r).0.slots
  unfolding expire
  expire-IsFresh now r h v = expire_at-IsFresh now r.next_expiry r h v.due
