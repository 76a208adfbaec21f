-- ===== src/Tests/WatchTests.antt =====
-- Two documents, one of them given twice: one is found in the first round, and then the context ends.
use near_real_time_hybrid_se.Common.{◌≡◌, refl, true, List, [], ◌∷◌, some, inl}
use near_real_time_hybrid_se.Common.Int.{ℤ, pos, ◌-ℤ◌}
use near_real_time_hybrid_se.Common.Bytes.{Bytes, bytes_eq, codes}
use near_real_time_hybrid_se.Errors.{Sentinel, sentinel}
use near_real_time_hybrid_se.Cdc.Mapping.{ok}
use near_real_time_hybrid_se.Loadtest.Stats.{record_sample}
use near_real_time_hybrid_se.Loadtest.Watch.{
  Arrival, Round, wait, wait_rounds, check_all, absorb, pending_of, put, remove, inserted_of,
  watching,
}
use near_real_time_hybrid_se.Loadtest.Watch.Accounts.{Accounted, wait-Accounted}

abbrev arrival : Bytes → ℤ → Arrival
arrival id inserted = record { id = id; inserted = inserted }

abbrev arrivals : List Arrival
arrivals =
    arrival (codes "a") (pos 1) ∷ arrival (codes "b") (pos 2) ∷ arrival (codes "a") (pos 3) ∷ []

abbrev only_a : Round
only_a = record {
  asked = λ i. true;
  exists = λ i. ok (bytes_eq i (codes "a"));
  is_open = λ i. true;
  seen_at = pos 10;
  ended = some (sentinel Sentinel.deadline_exceeded);
}

wait-Accounted_example : Accounted 2 (wait ◌-ℤ◌ (only_a ∷ []) arrivals)
unfolding pending_of put bytes_eq
wait-Accounted_example = wait-Accounted ◌-ℤ◌ (only_a ∷ []) arrivals (inl λ e. cc)

waited :
    wait ◌-ℤ◌ (only_a ∷ []) arrivals
    ≡ some (
      record {
        samples = pos 7 ∷ [];
        last = some (pos 10);
        pending = arrival (codes "b") (pos 2) ∷ [];
      },
      some (sentinel Sentinel.deadline_exceeded),
    )
unfolding wait wait_rounds check_all absorb pending_of put remove inserted_of record_sample ◌-ℤ◌
    bytes_eq watching
waited = refl
