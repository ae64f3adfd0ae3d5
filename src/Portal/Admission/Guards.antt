-- ===== src/Portal/Admission/Guards.antt =====
-- src/portal/admission.rs: the counters against the guards that are held.
use nowhere.Common.{
  ℕ, ◌+◌, ◌-◌, ◌≡◌, ◌≤◌, ◌<◌, refl, sym, ap, ◌∙◌, List, [], ◌∷◌, none, some, true, false, ◌==◌,
  ==_iff, leb, if◌then◌else◌, Bool-cases, length, ◌⊎◌, inl, inr, arith,
}
use nowhere.Portal.Admission.{
  IpAddr, SourceKey, v4_source, v6_source, source_key, same_source, AdmissionState, new_admission,
  count_of, insert_count, decrement_count, try_acquire, release_guard,
}

same_source_refl : (k : SourceKey) → same_source k k ≡ true
same_source_refl (v4_source a) = ground arith
same_source_refl (v6_source a) = ground arith

same_source_eq : (j k : SourceKey) → same_source j k ≡ true → j ≡ k
same_source_eq (v4_source a) (v4_source b) e = ap v4_source ((==_iff a b).0 e)
same_source_eq (v6_source a) (v6_source b) e = ap v6_source ((==_iff a b).0 e)
same_source_eq (v4_source a) (v6_source b) e = cc
same_source_eq (v6_source a) (v4_source b) e = cc

same_source_sym : (j k : SourceKey) → same_source j k ≡ same_source k j
same_source_sym (v4_source a) (v4_source b) = ground arith
same_source_sym (v6_source a) (v6_source b) = ground arith
same_source_sym (v4_source a) (v6_source b) = refl
same_source_sym (v6_source a) (v4_source b) = refl

-- How many of the guards are of a source.
abbrev pub held_by : SourceKey → List SourceKey → ℕ
held_by k [] = 0
held_by k (j ∷ held) = (if same_source j k then 1 else 0) + held_by k held

-- A guard taken out of those that are held.
abbrev pub drop_guard : SourceKey → List SourceKey → List SourceKey
drop_guard k [] = []
drop_guard k (j ∷ held) = if same_source j k then held else j ∷ drop_guard k held

-- No source has two entries, and none an entry of zero.
abbrev pub IsCounts : List (SourceKey × ℕ) → Type 0
IsCounts [] = Unit {0}
IsCounts ((k, n) ∷ counts) = (1 ≤ n) × (count_of k counts ≡ 0) × IsCounts counts

-- The state is that of the guards that are held, and these keep the limits.
pub record Counts (held : List SourceKey) (s : AdmissionState) : Type 0 where
  pub entries : IsCounts s.per_source
  pub all_held : s.total ≡ length held
  pub each_held : (k : SourceKey) → count_of k s.per_source ≡ held_by k held
  pub all_limit : length held ≤ 256
  pub each_limit : (k : SourceKey) → held_by k held ≤ 32

-- Two entries of one source have the same count in the rest.
count_of_same :
    (j k : SourceKey) (counts : List (SourceKey × ℕ))
    → same_source j k ≡ true
    → count_of j counts ≡ count_of k counts
count_of_same j k counts e = ap (λ i. count_of i counts) (same_source_eq j k e)

count_insert :
    (j k : SourceKey) (n : ℕ) (counts : List (SourceKey × ℕ))
    → count_of j (insert_count k n counts) ≡ (if same_source k j then n else count_of j counts)
count_insert j k n [] = ground arith
count_insert j k n ((i, m) ∷ counts) = ground (
  arith,
  count_insert j k n counts,
  same_source_eq i k,
  same_source_eq k j,
  same_source_eq i j,
  same_source_refl j,
)

insert-IsCounts :
    (k : SourceKey) (n : ℕ) (counts : List (SourceKey × ℕ))
    → 1 ≤ n
    → IsCounts counts
    → IsCounts (insert_count k n counts)
insert-IsCounts k n [] l c = (l, refl, tt)
insert-IsCounts k n ((i, m) ∷ counts) l c = elim (Bool-cases (same_source i k)) [
  | inl h ↦ rw h (l, c.1, c.2)
  | inr h ↦
      let other : same_source k i ≡ false = same_source_sym k i ∙ h in
      let absent : count_of i (insert_count k n counts) ≡ 0 =
        ground (arith, count_insert i k n counts, other, c.1) in
      rw h (c.0, absent, insert-IsCounts k n counts l c.2)
]

count_decrement :
    (j k : SourceKey) (counts : List (SourceKey × ℕ))
    → IsCounts counts
    → count_of j (decrement_count k counts)
      ≡ (if same_source k j then count_of j counts - 1 else count_of j counts)
count_decrement j k [] c = ground arith
count_decrement j k ((i, m) ∷ counts) c = elim (Bool-cases (same_source i k)) [
  | inl h ↦
      let same : same_source i j ≡ same_source k j =
        ap (λ x. same_source x j) (same_source_eq i k h) in
      let absent : same_source i j ≡ true → count_of j counts ≡ 0 =
        λ e. sym (count_of_same i j counts e) ∙ c.1 in
      ground (arith, h, same, absent, c.0)
  | inr h ↦
      let other : same_source i j ≡ true → same_source k j ≡ false =
        λ e. same_source_sym k j ∙ ap (λ x. same_source x k) (sym (same_source_eq i j e)) ∙ h in
      ground (arith, h, other, count_decrement j k counts c.2)
]

decrement-IsCounts :
    (k : SourceKey) (counts : List (SourceKey × ℕ))
    → IsCounts counts
    → IsCounts (decrement_count k counts)
decrement-IsCounts k [] c = tt
decrement-IsCounts k ((i, m) ∷ counts) c = elim (Bool-cases (same_source i k)) [
  | inl h ↦
      rw h (elim (Bool-cases (m - 1 == 0)) [
        | inl z ↦ rw z c.2
        | inr p ↦ rw p (ground arith, c.1, c.2)
      ])
  | inr h ↦
      let absent : count_of i (decrement_count k counts) ≡ 0 =
        ground (arith, count_decrement i k counts c.2, c.1) in
      rw h (c.0, absent, decrement-IsCounts k counts c.2)
]

held_by-drop_guard :
    (g k : SourceKey) (held : List SourceKey)
    → held_by k (drop_guard g held)
      ≡ (if same_source g k then held_by k held - 1 else held_by k held)
held_by-drop_guard g k [] = ground arith
held_by-drop_guard g k (j ∷ held) = elim (Bool-cases (same_source j g)) [
  | inl h ↦
      let same : same_source j k ≡ same_source g k =
        ap (λ x. same_source x k) (same_source_eq j g h) in
      ground (arith, h, same)
  | inr h ↦
      let other : same_source j k ≡ true → same_source g k ≡ false =
        λ e. same_source_sym g k ∙ ap (λ x. same_source x g) (sym (same_source_eq j k e)) ∙ h in
      ground (arith, h, other, held_by-drop_guard g k held)
]

length-drop_guard :
    (g : SourceKey) (held : List SourceKey)
    → 1 ≤ held_by g held
    → length (drop_guard g held) + 1 ≡ length held
length-drop_guard g [] h = absurd (omega arith)
length-drop_guard g (j ∷ held) h = ground (arith, length-drop_guard g held)

acquired-Counts :
    (key : SourceKey) (held : List SourceKey) (s : AdmissionState)
    → Counts held s
    → length held < 256
    → held_by key held < 32
    → Counts (key ∷ held) (record s {
      total = s.total + 1;
      per_source = insert_count key (count_of key s.per_source + 1) s.per_source;
    })
acquired-Counts key held s c room free = record {
  entries =
      insert-IsCounts key (count_of key s.per_source + 1) s.per_source (omega arith) c.entries;
  all_held = omega (arith, c.all_held);
  each_held = λ k.
      let same : same_source key k ≡ true → count_of key s.per_source ≡ count_of k s.per_source =
        count_of_same key k s.per_source in
      ground (
        arith,
        count_insert k key (count_of key s.per_source + 1) s.per_source,
        c.each_held k,
        same,
      );
  all_limit = omega arith;
  each_limit = λ k.
      let same : same_source key k ≡ true → held_by key held ≡ held_by k held =
        λ e. ap (λ x. held_by x held) (same_source_eq key k e) in
      ground (arith, c.each_limit k, same);
}

-- Where the state counts the guards that are held: either 256 are held, or 32 of the address's
-- source, and `try_acquire` refuses and changes nothing; or it gives a guard of the source, and
-- the new state counts this guard with the others, all within the limits.
pub try_acquire_lem :
    (ip : IpAddr) (held : List SourceKey) (s : AdmissionState)
    → Counts held s
    → (((256 ≤ length held) ⊎ (32 ≤ held_by (source_key ip) held)) × (try_acquire ip s ≡ (none, s)))
      ⊎ (((try_acquire ip s).0 ≡ some (source_key ip))
          × Counts (source_key ip ∷ held) (try_acquire ip s).1)
unfolding try_acquire
try_acquire_lem ip held s c =
    let each = c.each_held (source_key ip) in
    let all = c.all_held in
    elim (Bool-cases (leb 256 s.total)) [
      | inl full ↦ inl (inl (ground (arith, full, all)), rw full refl)
      | inr room ↦ elim (Bool-cases (leb 32 (count_of (source_key ip) s.per_source))) [
        | inl full ↦ inl (inr (ground (arith, full, each)), rw (room, full) refl)
        | inr free ↦ inr (
            rw (room, free)
              (
                refl,
                acquired-Counts (source_key ip) held s c (ground (arith, room, all))
                    (ground (arith, free, each)),
              ))
      ]
    ]

-- Where the state counts the guards that are held, dropping one that is held of a source leads to
-- the state that counts the others.
pub release_guard_lem :
    (key : SourceKey) (held : List SourceKey) (s : AdmissionState)
    → Counts held s
    → 1 ≤ held_by key held
    → Counts (drop_guard key held) (release_guard key s)
unfolding release_guard
release_guard_lem key held s c h =
    let shorter = length-drop_guard key held h in
    record {
      entries = decrement-IsCounts key s.per_source c.entries;
      all_held = omega (arith, c.all_held);
      each_held = λ k. ground (
        arith,
        count_decrement k key s.per_source c.entries,
        held_by-drop_guard key k held,
        c.each_held k,
      );
      all_limit = omega (arith, c.all_limit);
      each_limit = λ k. ground (arith, held_by-drop_guard key k held, c.each_limit k);
    }

-- At the start no guard is held.
pub new_admission-Counts : Counts [] new_admission
unfolding new_admission
new_admission-Counts = record {
  entries = tt;
  all_held = refl;
  each_held = λ k. refl;
  all_limit = omega arith;
  each_limit = λ k. omega arith;
}
