-- ===== src/Options/Tests.antt =====
-- Three nodes under a threshold of two thirds.
use paxosme.Prelude.{[], ◌∷◌}
use paxosme.Options.Defs.{PaxosOptions}

abbrev three_nodes : PaxosOptions
three_nodes = record {
  node_id = 2;
  threshold_num = 2;
  threshold_den = 3;
  member_count = 3;
  members = 1 ∷ 2 ∷ 3 ∷ [];
}
