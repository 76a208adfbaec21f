-- ===== src/Tests/DlqTests.antt =====
-- The letter of a message whose cause is short.
use near_real_time_hybrid_se.Common.{◌≡◌, refl, some}
use near_real_time_hybrid_se.Common.Int.{pos}
use near_real_time_hybrid_se.Common.Bytes.{codes}
use near_real_time_hybrid_se.Dlq.{Source, Letter, new, truncate}

abbrev source : Source
source = record {
  topic = codes "documents";
  partition = 1;
  offset = 12;
  key = codes "k";
  payload = codes "{}";
}

abbrev letter : Letter
letter = new source (some (codes "no index")) (codes "unknown") 3 (pos 0)

short_reason : letter.error ≡ codes "no index"
unfolding new
short_reason = refl

cut_reason : truncate (codes "timeout") 4 ≡ codes "time..."
unfolding truncate
cut_reason = refl
