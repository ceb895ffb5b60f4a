-- ===== src/Options/Defs.antt =====
-- include/config.hpp: the options and the membership test.
use paxosme.Prelude.{ℕ, ◌+◌, ◌-◌, ◌*◌, ◌/◌, Bool, true, false, List, [], ◌∷◌, ◌==◌, if◌then◌else◌}

-- std::set::find on node ids
unfoldable pub contains : List ℕ → ℕ → Bool
contains [] n = false
contains (m ∷ ms) n = if m == n then true else contains ms n

pub record PaxosOptions : Type 0 where
  pub node_id : ℕ
  pub threshold_num : ℕ
  pub threshold_den : ℕ
  pub member_count : ℕ
  pub members : List ℕ

-- ceil(majority_threshold_ * (double) GetNodeCount())
unfoldable pub get_majority_count : PaxosOptions → ℕ
get_majority_count o = (o.threshold_num * o.member_count + (o.threshold_den - 1)) / o.threshold_den

unfoldable pub proposing_authority : PaxosOptions → Bool
unfolding contains
proposing_authority o = contains o.members o.node_id
