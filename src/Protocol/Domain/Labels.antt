-- ===== src/Protocol/Domain/Labels.antt =====
-- src/protocol/util.rs, `validate_domain_bytes`: what a domain name is, said without loops.
use nowhere.Common.{
  ℕ, ◌≤◌, ◌<◌, ◌≡◌, ◌≢◌, ◌↔◌, refl, sym, ap, ◌∙◌, List, [], ◌∷◌, ◌++◌, Bool, true, false, ◌==◌,
  ◌||◌, Bool-cases, length, all, All, ok, inl, inr, arith,
}
use nowhere.Protocol.Domain.{
  validate_domain_bytes, validate_labels, validate_label, split_dots, add_front, is_ascii,
  is_ascii_alphanumeric, ends_with_hyphen,
}

abbrev pub IsLabelByte : ℕ → Type 0
IsLabelByte b = ((is_ascii_alphanumeric b || b == b'-') ≡ true)

abbrev pub FirstIsNot : ℕ → List ℕ → Type 0
FirstIsNot a [] = Unit {0}
FirstIsNot a (b ∷ bytes) = b ≢ a

abbrev pub LastIsNot : ℕ → List ℕ → Type 0
LastIsNot a [] = Unit {0}
LastIsNot a (b ∷ []) = b ≢ a
LastIsNot a (b ∷ c ∷ bytes) = LastIsNot a (c ∷ bytes)

-- A label: 1 to 63 letters, digits and hyphens, with no hyphen at either end.
abbrev pub IsLabel : List ℕ → Type 0
IsLabel label =
    (1 ≤ length label)
    × (length label ≤ 63)
    × FirstIsNot b'-' label
    × LastIsNot b'-' label
    × All IsLabelByte label

-- Labels with a dot between each two.
abbrev pub join_dots : List (List ℕ) → List ℕ
join_dots [] = []
join_dots (label ∷ []) = label
join_dots (label ∷ more ∷ labels) = label ++ (b'.' ∷ join_dots (more ∷ labels))

all_iff : (p : ℕ → Bool) (xs : List ℕ) → (all p xs ≡ true) ↔ All (λ x. p x ≡ true) xs
all_iff p [] = ground arith
all_iff p (x ∷ xs) = ground (arith, all_iff p xs)

ends_with_hyphen_iff : (xs : List ℕ) → (ends_with_hyphen xs ≡ false) ↔ LastIsNot b'-' xs
ends_with_hyphen_iff [] = ground arith
ends_with_hyphen_iff (b ∷ []) = ground arith
ends_with_hyphen_iff (b ∷ c ∷ xs) = ends_with_hyphen_iff (c ∷ xs)

validate_label_iff : (label : List ℕ) → (validate_label label ≡ ok tt) ↔ IsLabel label
unfolding validate_label
validate_label_iff [] = ground arith
validate_label_iff (b ∷ bytes) = ground (
  arith,
  ends_with_hyphen_iff (b ∷ bytes),
  all_iff (λ c. is_ascii_alphanumeric c || c == b'-') (b ∷ bytes),
)

validate_labels_iff :
    (labels : List (List ℕ)) → (validate_labels labels ≡ ok tt) ↔ All IsLabel labels
unfolding validate_labels
validate_labels_iff [] = ground arith
validate_labels_iff (label ∷ labels) =
    ground (arith, validate_label_iff label, validate_labels_iff labels)

label_byte_bounds : (b : ℕ) → IsLabelByte b → (b < 128) × (b ≢ b'.')
label_byte_bounds b h = ground arith

is_ascii-append :
    (xs ys : List ℕ) → is_ascii xs ≡ true → is_ascii ys ≡ true → is_ascii (xs ++ ys) ≡ true
is_ascii-append [] ys h k = k
is_ascii-append (x ∷ xs) ys h k = ground (arith, is_ascii-append xs ys)

label-is_ascii : (label : List ℕ) → All IsLabelByte label → is_ascii label ≡ true
label-is_ascii [] h = refl
label-is_ascii (b ∷ bytes) h = ground (arith, label_byte_bounds b h.0, label-is_ascii bytes h.1)

join_dots-is_ascii :
    (labels : List (List ℕ)) → All IsLabel labels → is_ascii (join_dots labels) ≡ true
join_dots-is_ascii [] h = refl
join_dots-is_ascii (label ∷ []) h = label-is_ascii label h.0.4
join_dots-is_ascii (label ∷ more ∷ labels) h =
    is_ascii-append label _ (label-is_ascii label h.0.4) (join_dots-is_ascii (more ∷ labels) h.1)

split_dots_cons : (d : List ℕ) → (p : List ℕ) × (ps : List (List ℕ)) × (split_dots d ≡ p ∷ ps)
unfolding split_dots
split_dots_cons [] = ([], [], refl)
split_dots_cons (b ∷ d) =
    let (p, ps, e) = split_dots_cons d in
    elim (Bool-cases (b == b'.')) [
      | inl h ↦ ([], split_dots d, rw h)
      | inr h ↦ (b ∷ p, ps, rw (h, e))
    ]

join_dots-add_front :
    (b : ℕ) (pieces : List (List ℕ)) → join_dots (add_front b pieces) ≡ b ∷ join_dots pieces
join_dots-add_front b [] = refl
join_dots-add_front b (p ∷ []) = refl
join_dots-add_front b (p ∷ q ∷ pieces) = refl

join_dots_dot :
    (pieces : List (List ℕ)) {p : List ℕ} {ps : List (List ℕ)}
    → pieces ≡ p ∷ ps
    → join_dots ([] ∷ pieces) ≡ b'.' ∷ join_dots pieces
join_dots_dot [] e = cc
join_dots_dot (p ∷ pieces) e = refl

join_split_nil : join_dots (split_dots []) ≡ []
unfolding split_dots
join_split_nil = refl

join_split_step :
    (b : ℕ) (d : List ℕ) → join_dots (split_dots (b ∷ d)) ≡ b ∷ join_dots (split_dots d)
unfolding split_dots
join_split_step b d = elim (Bool-cases (b == b'.')) [
  | inl h ↦
      let (p, ps, e) = split_dots_cons d in
      rw h (join_dots_dot (split_dots d) e ∙ ap (λ c. c ∷ join_dots (split_dots d)) (ground arith))
  | inr h ↦ rw h (join_dots-add_front b (split_dots d))
]

-- The pieces of a byte string, with dots between them, are the byte string.
join_dots-split_dots : (d : List ℕ) → join_dots (split_dots d) ≡ d
join_dots-split_dots [] = join_split_nil
join_dots-split_dots (b ∷ d) = join_split_step b d ∙ ap (◌∷◌ b) (join_dots-split_dots d)

split_dots-label : (label : List ℕ) → All IsLabelByte label → split_dots label ≡ label ∷ []
unfolding split_dots
split_dots-label [] h = refl
split_dots-label (b ∷ bytes) h = ground (arith, label_byte_bounds b h.0, split_dots-label bytes h.1)

split_dots-append :
    (label rest : List ℕ)
    → All IsLabelByte label
    → split_dots (label ++ (b'.' ∷ rest)) ≡ label ∷ split_dots rest
unfolding split_dots
split_dots-append [] rest h = refl
split_dots-append (b ∷ bytes) rest h =
    ground (arith, label_byte_bounds b h.0, split_dots-append bytes rest h.1)

split_dots-join_dots :
    (label : List ℕ) (labels : List (List ℕ))
    → All IsLabel (label ∷ labels)
    → split_dots (join_dots (label ∷ labels)) ≡ label ∷ labels
split_dots-join_dots label [] h = split_dots-label label h.0.4
split_dots-join_dots label (more ∷ labels) h =
    split_dots-append label (join_dots (more ∷ labels)) h.0.4
    ∙ ap (◌∷◌ label) (split_dots-join_dots more labels h.1)

accepted_labels :
    (domain : List ℕ)
    → validate_domain_bytes domain ≡ ok tt
    → (1 ≤ length domain)
      × (length domain ≤ 253)
      × (labels : List (List ℕ)) × All IsLabel labels
      × (domain ≡ join_dots labels)
unfolding validate_domain_bytes
accepted_labels [] e = cc
accepted_labels (b ∷ bytes) e =
    let d = b ∷ bytes in
    (
      omega arith,
      ground arith,
      split_dots d,
      (validate_labels_iff (split_dots d)).0 (ground arith),
      sym (join_dots-split_dots d),
    )

labels_accepted :
    (labels : List (List ℕ))
    → 1 ≤ length (join_dots labels)
    → length (join_dots labels) ≤ 253
    → All IsLabel labels
    → validate_domain_bytes (join_dots labels) ≡ ok tt
unfolding validate_domain_bytes
labels_accepted [] lo hi h = absurd (omega arith)
labels_accepted (label ∷ labels) lo hi h =
    rw
      (
        join_dots-is_ascii (label ∷ labels) h,
        split_dots-join_dots label labels h,
        (validate_labels_iff (label ∷ labels)).1 h,
      )
      (ground arith)

-- A domain is accepted exactly when it has 1 to 253 bytes and is labels with a dot between each
-- two: each of 1 to 63 letters, digits and hyphens, with no hyphen at either end.
pub validate_domain_bytes_iff :
    (domain : List ℕ)
    → (validate_domain_bytes domain ≡ ok tt) ↔ (
        (1 ≤ length domain)
        × (length domain ≤ 253)
        × (labels : List (List ℕ)) × All IsLabel labels
        × (domain ≡ join_dots labels))
validate_domain_bytes_iff domain = (
  accepted_labels domain,
  λ h. let e = h.4 in rw e (labels_accepted h.2 (rw e at (h.0)) (rw e at (h.1)) h.3),
)
