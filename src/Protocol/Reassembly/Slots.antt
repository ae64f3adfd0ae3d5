-- ===== src/Protocol/Reassembly/Slots.antt =====
-- Properties of every slot, where slots are taken out, changed, swept or looked up, and the slot
-- that is found as the oldest.
use nowhere.Common.{
  ℕ, ◌≡◌, ◌≤◌, refl, sym, ap, subst, List, [], ◌∷◌, ◌==◌, ltb, some, length, ◌⊎◌, inl, inr,
  Bool-cases, arith,
}
use mathlib.Core.Option.{some-injective}
use nowhere.Protocol.Reassembly.{
  Key, Slot, same_key, get_slot, delete_slot, put_slot, without_flow, fresh_slots, is_fresh,
  oldest_of, oldest,
}
use nowhere.Protocol.Reassembly.State.{Distinct, AllSlots}
use nowhere.Protocol.Reassembly.Sums.{same_key_refl, same_key_eq}

module _ {R : Type 0} (P : Slot R → Type 0) where
  pub get_slot-AllSlots :
      (k : Key) (slots : List (Key × Slot R)) (slot : Slot R)
      → AllSlots P slots
      → get_slot k slots ≡ some slot
      → P slot
  get_slot-AllSlots k [] slot a e = cc
  get_slot-AllSlots k ((j, s) ∷ slots) slot a e = elim (Bool-cases (same_key j k)) [
    | inl h ↦ subst P (ground arith) a.0
    | inr h ↦ get_slot-AllSlots k slots slot a.1 (ground arith)
  ]

  pub delete_slot-AllSlots :
      (k : Key) (slots : List (Key × Slot R)) → AllSlots P slots → AllSlots P (delete_slot k slots)
  delete_slot-AllSlots k [] a = tt
  delete_slot-AllSlots k ((j, s) ∷ slots) a = elim (Bool-cases (same_key j k)) [
    | inl h ↦ rw h a.1
    | inr h ↦ rw h (a.0, delete_slot-AllSlots k slots a.1)
  ]

  pub put_slot-AllSlots :
      (k : Key) (new : Slot R) (slots : List (Key × Slot R))
      → P new
      → AllSlots P slots
      → AllSlots P (put_slot k new slots)
  put_slot-AllSlots k new [] p a = tt
  put_slot-AllSlots k new ((j, s) ∷ slots) p a = elim (Bool-cases (same_key j k)) [
    | inl h ↦ rw h (p, a.1)
    | inr h ↦ rw h (a.0, put_slot-AllSlots k new slots p a.1)
  ]

  pub without_flow-AllSlots :
      (flow_id : ℕ) (slots : List (Key × Slot R))
      → AllSlots P slots
      → AllSlots P (without_flow flow_id slots)
  without_flow-AllSlots flow_id [] a = tt
  without_flow-AllSlots flow_id ((j, s) ∷ slots) a = elim (Bool-cases (j.flow_id == flow_id)) [
    | inl h ↦ rw h (without_flow-AllSlots flow_id slots a.1)
    | inr h ↦ rw h (a.0, without_flow-AllSlots flow_id slots a.1)
  ]

  pub fresh_slots-AllSlots :
      (ttl now : ℕ) (slots : List (Key × Slot R))
      → AllSlots P slots
      → AllSlots P (fresh_slots ttl now slots)
  fresh_slots-AllSlots ttl now [] a = tt
  fresh_slots-AllSlots ttl now ((j, s) ∷ slots) a = elim (Bool-cases (is_fresh ttl now s)) [
    | inl h ↦ rw h (a.0, fresh_slots-AllSlots ttl now slots a.1)
    | inr h ↦ rw h (fresh_slots-AllSlots ttl now slots a.1)
  ]

  pub AllSlots-map :
      (Q : Slot R → Type 0) (slots : List (Key × Slot R))
      → ((slot : Slot R) → P slot → Q slot)
      → AllSlots P slots
      → AllSlots Q slots
  AllSlots-map Q [] f a = tt
  AllSlots-map Q ((k, s) ∷ slots) f a = (f s a.0, AllSlots-map Q slots f a.1)

module _ {R : Type 0} where
  -- The entries of the map, one by one.
  abbrev In : Key × Slot R → List (Key × Slot R) → Type 0
  In e [] = ⊥
  In e (x ∷ slots) = (e ≡ x) ⊎ In e slots

  In-get_slot :
      (e : Key × Slot R) (slots : List (Key × Slot R))
      → Distinct slots
      → In e slots
      → get_slot e.0 slots ≡ some e.1
  In-get_slot e [] d i = absurd i
  In-get_slot e ((j, s) ∷ slots) d (inl h) = ground (arith, same_key_refl j)
  In-get_slot e ((j, s) ∷ slots) d (inr i) = elim (Bool-cases (same_key j e.0)) [
    | inl h ↦
        let found = In-get_slot e slots d.1 i in
        cc (found, ap (λ k. get_slot k slots) (same_key_eq j e.0 h), d.0)
    | inr h ↦ rw h (In-get_slot e slots d.1 i)
  ]

  oldest_of-In :
      (best v : Key × Slot R) (slots : List (Key × Slot R))
      → oldest_of best slots ≡ v
      → (v ≡ best) ⊎ In v slots
  oldest_of-In best v [] e = inl (sym e)
  oldest_of-In best v (x ∷ slots) e = elim (Bool-cases (ltb x.1.created_at best.1.created_at)) [
    | inl h ↦ elim (oldest_of-In x v slots (rw h at e)) [
      | inl p ↦ inr (inl p)
      | inr i ↦ inr (inr i)
    ]
    | inr h ↦ elim (oldest_of-In best v slots (rw h at e)) [ inl p ↦ inl p | inr i ↦ inr (inr i) ]
  ]

  pub oldest-get_slot :
      (slots : List (Key × Slot R)) (k : Key) (slot : Slot R)
      → Distinct slots
      → oldest slots ≡ some (k, slot)
      → get_slot k slots ≡ some slot
  oldest-get_slot [] k slot d e = cc
  oldest-get_slot (x ∷ slots) k slot d e =
      In-get_slot (k, slot) (x ∷ slots) d (oldest_of-In x (k, slot) slots (some-injective _ _ e))

  pub oldest-some :
      (slots : List (Key × Slot R))
      → 1 ≤ length slots
      → (e : Key × Slot R) × (oldest slots ≡ some e)
  oldest-some [] h = absurd (omega arith)
  oldest-some (x ∷ slots) h = (oldest_of x slots, refl)
