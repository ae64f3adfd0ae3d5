-- ===== src/Portal/Admission/Tests.antt =====
-- Runs of the admission limits: two addresses of one IPv6 source.
use nowhere.Common.{◌≡◌, ◌≤◌, ◌⊎◌, refl, [], ◌∷◌, none, some, arith}
use nowhere.Portal.Admission.{
  IpAddr, v6_addr, SourceKey, v6_source, source_key, AdmissionState, try_acquire, release_guard,
}
use nowhere.Portal.Admission.Guards.{
  Counts, held_by, drop_guard, try_acquire_lem, release_guard_lem,
}

-- The second host of the network 7.
abbrev second_host : IpAddr
second_host = v6_addr 129_127_208_515_966_861_314

abbrev network : SourceKey
network = v6_source 7

abbrev one_held : AdmissionState
one_held = record { total = 1; per_source = (network, 1) ∷ [] }

one_held-Counts : Counts (network ∷ []) one_held
one_held-Counts = record {
  entries = (omega arith, refl, tt);
  all_held = refl;
  each_held = λ k. ground arith;
  all_limit = omega arith;
  each_limit = λ k. ground arith;
}

-- The second host is counted with the first.
second_acquired :
    try_acquire second_host one_held
    ≡ (some network, record { total = 2; per_source = (network, 2) ∷ [] })
unfolding try_acquire source_key
second_acquired = refl

try_acquire_example :
    (((256 ≤ 1) ⊎ (32 ≤ held_by (source_key second_host) (network ∷ [])))
      × (try_acquire second_host one_held ≡ (none, one_held)))
    ⊎ (((try_acquire second_host one_held).0 ≡ some (source_key second_host))
        × Counts (source_key second_host ∷ network ∷ []) (try_acquire second_host one_held).1)
try_acquire_example = try_acquire_lem second_host (network ∷ []) one_held one_held-Counts

release_guard_example : Counts (drop_guard network (network ∷ [])) (release_guard network one_held)
release_guard_example =
    release_guard_lem network (network ∷ []) one_held one_held-Counts (omega arith)
