-- ===== src/Tests/Partitions.antt =====
-- Examples of a partition of units (`CheckPartition`, internal/csf/decision/kernel.go).
use cote_ai_simulation.Base.{ℕ, ◌≡◌, ◌↔◌, refl, List, [], ◌∷◌, ok, err, arith}
use cote_ai_simulation.Base.Bytes.{Bytes, bytes_equal}
use cote_ai_simulation.Decision.{provenance}
use cote_ai_simulation.Decision.Candidates.{
  Candidate, holds, mark, all_held, none_held, claim_sources, claim_all, is_covered,
  check_partition,
}
use cote_ai_simulation.Decision.Counts.{IsDistinct, count}
use cote_ai_simulation.Decision.Partition.{IsPartition, check_partition_iff}

abbrev candidate : List Bytes → Candidate
candidate ids = record {
  id = 9 ∷ [];
  source_unit_ids = ids;
  fields = [];
  digest = [];
  canonical = [];
}

abbrev unit : ℕ → Bytes
unit n = n ∷ []

singleton-IsDistinct : (x : Bytes) → IsDistinct (x ∷ [])
unfolding count
singleton-IsDistinct x id = ground arith

-- A refusal, an alias and a candidate of two units.
check_partition_iff_example :
    (check_partition
        (unit 3 ∷ unit 1 ∷ unit 2 ∷ unit 4 ∷ [])
        (unit 1 ∷ [])
        (unit 2 ∷ [])
        (candidate (unit 3 ∷ unit 4 ∷ []) ∷ [])
      ≡ ok tt)
    ↔ IsPartition
        (unit 3 ∷ unit 1 ∷ unit 2 ∷ unit 4 ∷ [])
        (unit 1 ∷ [])
        (unit 2 ∷ [])
        (candidate (unit 3 ∷ unit 4 ∷ []) ∷ [])
check_partition_iff_example =
    check_partition_iff (unit 3 ∷ unit 1 ∷ unit 2 ∷ unit 4 ∷ []) (unit 1 ∷ []) (unit 2 ∷ [])
      (candidate (unit 3 ∷ unit 4 ∷ []) ∷ []) (singleton-IsDistinct (unit 1))
      (singleton-IsDistinct (unit 2))

partition_accepted :
    check_partition
      (unit 3 ∷ unit 1 ∷ unit 2 ∷ unit 4 ∷ [])
      (unit 1 ∷ [])
      (unit 2 ∷ [])
      (candidate (unit 3 ∷ unit 4 ∷ []) ∷ [])
    ≡ ok tt
unfolding holds mark all_held none_held claim_sources claim_all is_covered check_partition
    bytes_equal
partition_accepted = refl

-- A unit without a producer.
partition_refused :
    check_partition (unit 3 ∷ unit 1 ∷ []) [] [] (candidate (unit 3 ∷ []) ∷ []) ≡ err provenance
unfolding holds mark all_held none_held claim_sources claim_all is_covered check_partition
    bytes_equal
partition_refused = refl
