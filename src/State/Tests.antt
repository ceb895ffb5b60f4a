-- ===== src/State/Tests.antt =====
-- Inputs at which the theorems about the players' states apply.
use paxosme.Prelude.{◌≡◌, ◌⊎◌, List, [], ◌∷◌, All, Any}
use paxosme.State.Proposer.{ProposerState}
use paxosme.State.Ballots.{Report, Covers, StandsFor, learn_reports, learn_reports_highest}

abbrev two_reports : List Report
two_reports =
    record { proposal_id = 3; node_id = 1; value = 10 ∷ [] }
    ∷ record { proposal_id = 2; node_id = 3; value = 20 ∷ [] }
    ∷ []

abbrev fresh_state : ProposerState
fresh_state = record {
  log_value = [];
  highest_known_proposal = 0;
  my_proposal_id = 4;
  highest_proposal_provider = 0;
}

learn_reports_highest_example :
    All (Covers (learn_reports two_reports fresh_state)) two_reports
    × ((learn_reports two_reports fresh_state ≡ fresh_state)
        ⊎ Any (StandsFor (learn_reports two_reports fresh_state)) two_reports)
learn_reports_highest_example = learn_reports_highest two_reports fresh_state
