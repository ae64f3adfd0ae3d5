-- ===== src/Portal/Admission.antt =====
-- src/portal/admission.rs: `UnauthenticatedAdmission`, which limits the connections that wait for
-- authentication. The state changes only under its lock; the hash map is an association list with
-- one entry for a key. A guard is its key, and dropping it is `release_guard`.
pub mod Guards
mod Tests
use nowhere.Common.{
  ℕ, suc, ◌+◌, ◌-◌, ◌/◌, ◌^◌, List, [], ◌∷◌, Option, none, some, Bool, true, false, ◌==◌, leb, ◌&&◌,
  ◌||◌, if◌then◌else◌,
}

abbrev pub max_unauthenticated_connections : ℕ
max_unauthenticated_connections = 256

abbrev pub max_unauthenticated_per_source : ℕ
max_unauthenticated_per_source = 32

-- An `IpAddr`, as the number that its bits are.
pub data IpAddr : Type 0 where
  v4_addr v6_addr : ℕ → IpAddr

pub data SourceKey : Type 0 where
  v4_source v6_source : ℕ → SourceKey

-- An IPv6 source is its /64: a shift by 64 is a division by `2 ^ 64`.
pub source_key : IpAddr → SourceKey
source_key (v4_addr ip) = v4_source ip
source_key (v6_addr ip) = v6_source (ip / 18_446_744_073_709_551_616)

-- The derived `PartialEq` of `SourceKey`.
abbrev pub same_source : SourceKey → SourceKey → Bool
same_source (v4_source a) (v4_source b) = a == b
same_source (v6_source a) (v6_source b) = a == b
same_source _ _ = false

pub record AdmissionState : Type 0 where
  pub total : ℕ
  pub per_source : List (SourceKey × ℕ)

pub new_admission : AdmissionState
new_admission = record { total = 0; per_source = [] }

-- `get(&key).copied().unwrap_or_default()`
abbrev pub count_of : SourceKey → List (SourceKey × ℕ) → ℕ
count_of k [] = 0
count_of k ((j, n) ∷ counts) = if same_source j k then n else count_of k counts

-- `insert`, which writes over what the key had.
abbrev pub insert_count : SourceKey → ℕ → List (SourceKey × ℕ) → List (SourceKey × ℕ)
insert_count k n [] = (k, n) ∷ []
insert_count k n ((j, m) ∷ counts) =
    if same_source j k then (j, n) ∷ counts else (j, m) ∷ insert_count k n counts

-- The change of an entry that is there, which goes when its count comes to zero.
abbrev pub decrement_count : SourceKey → List (SourceKey × ℕ) → List (SourceKey × ℕ)
decrement_count k [] = []
decrement_count k ((j, n) ∷ counts) =
    if same_source j k
    then (if n - 1 == 0 then counts else (j, n - 1) ∷ counts)
    else (j, n) ∷ decrement_count k counts

-- The key of the guard that is given, if one is.
pub try_acquire : IpAddr → AdmissionState → Option SourceKey × AdmissionState
unfolding source_key
try_acquire source s =
    let key = source_key source in
    let source_count = count_of key s.per_source in
    if leb max_unauthenticated_connections s.total
      || leb max_unauthenticated_per_source source_count
    then (none, s)
    else (
      some key,
      record s {
        total = s.total + 1;
        per_source = insert_count key (source_count + 1) s.per_source;
      },
    )

-- The drop of a guard. The counter of a `usize` does not go below zero while guards are counted.
pub release_guard : SourceKey → AdmissionState → AdmissionState
release_guard key s = record s {
  total = s.total - 1;
  per_source = decrement_count key s.per_source;
}
