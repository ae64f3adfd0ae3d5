-- ===== src/Portal/Pairing/LinkSums.antt =====
-- src/portal/pairing/link.rs: sums over the sessions that have carriers.
use nowhere.Common.{
  ℕ, ◌+◌, ◌≡◌, refl, sym, ap, ◌∙◌, subst, List, [], ◌∷◌, true, false, not, ◌==◌, ==_iff, ◌&&◌, none,
  some, Bool-cases, inl, inr, arith, if◌then◌else◌,
}
use nowhere.Common.Map.{get, remove, put}
use nowhere.Portal.Pairing.{LinkCounts}
use nowhere.Portal.Pairing.Claims.{same_number, is_some}
use nowhere.Portal.Pairing.Links.{is_paired}

abbrev pub tcp_of : LinkCounts → ℕ
tcp_of counts = counts.tcp

abbrev pub udp_of : LinkCounts → ℕ
udp_of counts = if is_some counts.udp then 1 else 0

abbrev pub pair_of : LinkCounts → ℕ
pair_of counts = if is_paired counts then 1 else 0

abbrev pub total : (LinkCounts → ℕ) → List (ℕ × LinkCounts) → ℕ
total f [] = 0
total f ((k, counts) ∷ m) = f counts + total f m

-- The number of a session, which is 0 where the session has no entry.
abbrev pub number_of : (LinkCounts → ℕ) → ℕ → List (ℕ × LinkCounts) → ℕ
number_of f k m = elim (get same_number k m) [ none ↦ 0 | some counts ↦ f counts ]

-- Every session has one entry.
abbrev pub IsMap : List (ℕ × LinkCounts) → Type 0
IsMap [] = Unit {0}
IsMap ((k, counts) ∷ m) = (get same_number k m ≡ none) × IsMap m

remove-absent :
    (k : ℕ) (m : List (ℕ × LinkCounts)) → get same_number k m ≡ none → remove same_number k m ≡ m
remove-absent k [] e = refl
remove-absent k ((j, counts) ∷ m) e = elim (Bool-cases (j == k)) [
  | inl h ↦ cc
  | inr h ↦ rw h (ap (λ rest. (j, counts) ∷ rest) (remove-absent k m (ground (arith, e, h))))
]

pub total-remove :
    (f : LinkCounts → ℕ) (k : ℕ) (m : List (ℕ × LinkCounts))
    → IsMap m
    → total f m ≡ number_of f k m + total f (remove same_number k m)
total-remove f k [] a = refl
total-remove f k ((j, counts) ∷ m) a = elim (Bool-cases (j == k)) [
  | inl h ↦
      let absent : get same_number k m ≡ none =
        subst (λ i. get same_number i m ≡ none) ((==_iff j k).0 h) a.0 in
      rw (number_of, h, remove-absent k m absent) refl
  | inr h ↦ let rest = total-remove f k m a.1 in rw (number_of, h) (omega (arith, rest))
]

get-remove_self :
    (k : ℕ) (m : List (ℕ × LinkCounts)) → get same_number k (remove same_number k m) ≡ none
get-remove_self k [] = refl
get-remove_self k ((j, counts) ∷ m) = elim (Bool-cases (j == k)) [
  | inl h ↦ rw h (get-remove_self k m)
  | inr h ↦ rw (h, h) (get-remove_self k m)
]

pub get-remove_other :
    (j k : ℕ) (m : List (ℕ × LinkCounts))
    → (j == k) ≡ false
    → get same_number j (remove same_number k m) ≡ get same_number j m
get-remove_other j k [] o = refl
get-remove_other j k ((i, counts) ∷ m) o = elim (Bool-cases (i == k)) [
  | inl h ↦ let not_j : (i == j) ≡ false = ground arith in rw (h, not_j) (get-remove_other j k m o)
  | inr h ↦ elim (Bool-cases (i == j)) [
    | inl s ↦ rw (h, s) refl
    | inr s ↦ rw (h, s) (get-remove_other j k m o)
  ]
]

absent-remove :
    (j k : ℕ) (m : List (ℕ × LinkCounts))
    → get same_number j m ≡ none
    → get same_number j (remove same_number k m) ≡ none
absent-remove j k m e = elim (Bool-cases (j == k)) [
  | inl h ↦
      subst (λ i. get same_number i (remove same_number k m) ≡ none) (sym ((==_iff j k).0 h))
        (get-remove_self k m)
  | inr h ↦ get-remove_other j k m h ∙ e
]

pub remove-IsMap : (k : ℕ) (m : List (ℕ × LinkCounts)) → IsMap m → IsMap (remove same_number k m)
remove-IsMap k [] a = tt
remove-IsMap k ((j, counts) ∷ m) a = elim (Bool-cases (j == k)) [
  | inl h ↦ rw h (remove-IsMap k m a.1)
  | inr h ↦ rw h (absent-remove j k m a.0, remove-IsMap k m a.1)
]

pub put-IsMap :
    (k : ℕ) (counts : LinkCounts) (m : List (ℕ × LinkCounts))
    → IsMap m
    → IsMap (put same_number k counts m)
put-IsMap k counts m a = (get-remove_self k m, remove-IsMap k m a)

pub number_of-put :
    (f : LinkCounts → ℕ) (k s : ℕ) (counts : LinkCounts) (m : List (ℕ × LinkCounts))
    → number_of f s (put same_number k counts m) ≡ (if k == s then f counts else number_of f s m)
number_of-put f k s counts m = elim (Bool-cases (k == s)) [
  | inl h ↦ rw (number_of, h) refl
  | inr h ↦
      let o : (s == k) ≡ false = ground arith in rw (number_of, h, get-remove_other s k m o) refl
]

pub number_of-remove :
    (f : LinkCounts → ℕ) (k s : ℕ) (m : List (ℕ × LinkCounts))
    → number_of f s (remove same_number k m) ≡ (if k == s then 0 else number_of f s m)
number_of-remove f k s m = elim (Bool-cases (k == s)) [
  | inl h ↦ rw h (
      subst (λ i. number_of f i (remove same_number k m) ≡ 0) ((==_iff k s).0 h)
        (rw (number_of, get-remove_self k m) refl))
  | inr h ↦
      let o : (s == k) ≡ false = ground arith in rw (number_of, h, get-remove_other s k m o) refl
]

-- The sum behind a new entry of a session.
pub total-put :
    (f : LinkCounts → ℕ) (s : ℕ) (counts : LinkCounts) (m : List (ℕ × LinkCounts))
    → IsMap m
    → total f (put same_number s counts m) + number_of f s m ≡ f counts + total f m
total-put f s counts m one = let split = total-remove f s m one in omega (arith, split)

-- The entries behind the end of a carrier of a session, which leaves it the new counts.
abbrev pub without_entry : ℕ → LinkCounts → List (ℕ × LinkCounts) → List (ℕ × LinkCounts)
without_entry s counts m =
    if counts.tcp == 0 && not (is_some counts.udp)
    then remove same_number s m
    else put same_number s counts m

pub without_entry-IsMap :
    (s : ℕ) (counts : LinkCounts) (m : List (ℕ × LinkCounts))
    → IsMap m
    → IsMap (without_entry s counts m)
without_entry-IsMap s counts m one =
    elim (Bool-cases (counts.tcp == 0 && not (is_some counts.udp))) [
      | inl h ↦ rw h (remove-IsMap s m one)
      | inr h ↦ rw h (put-IsMap s counts m one)
    ]

pub total-without_entry :
    (f : LinkCounts → ℕ) (s : ℕ) (counts : LinkCounts) (m : List (ℕ × LinkCounts))
    → (counts.tcp == 0 && not (is_some counts.udp) ≡ true → f counts ≡ 0)
    → IsMap m
    → total f (without_entry s counts m) + number_of f s m ≡ f counts + total f m
total-without_entry f s counts m z one =
    let split = total-remove f s m one in
    elim (Bool-cases (counts.tcp == 0 && not (is_some counts.udp))) [
      | inl h ↦ let none_left = z h in rw h (omega (arith, split, none_left))
      | inr h ↦ rw h (omega (arith, split))
    ]

pub number_of-without_entry :
    (s i : ℕ) (counts : LinkCounts) (m : List (ℕ × LinkCounts))
    → number_of tcp_of i (without_entry s counts m)
      ≡ (if s == i then counts.tcp else number_of tcp_of i m)
number_of-without_entry s i counts m =
    elim (Bool-cases (counts.tcp == 0 && not (is_some counts.udp))) [
      | inl h ↦ rw h (
          number_of-remove tcp_of s i m
          ∙ ap (λ n. if s == i then n else number_of tcp_of i m) (ground (arith, h)))
      | inr h ↦ rw h (number_of-put tcp_of s i counts m)
    ]
