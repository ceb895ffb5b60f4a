-- ===== src/State/Proposer.antt =====
-- ProposerState of core/include/proposer_pax.hpp and core/proposer_state.cpp.
use paxosme.Prelude.{ℕ, ◌+◌, ◌%◌, Bool, true, false, ◌||◌, [], ltb, if◌then◌else◌}
use paxosme.Message.{u64_mod, node_dummy, proposal_dummy, LogValue}

pub record ProposerState : Type 0 where
  pub log_value : LogValue
  pub highest_known_proposal : ℕ
  pub my_proposal_id : ℕ
  pub highest_proposal_provider : ℕ

unfoldable pub new_proposer_state : ProposerState
new_proposer_state = record {
  log_value = [];
  highest_known_proposal = proposal_dummy;
  my_proposal_id = 1;
  highest_proposal_provider = node_dummy;
}

unfoldable pub try_update_highest_proposal_id : ℕ → ℕ → ProposerState → ProposerState × Bool
try_update_highest_proposal_id proposal_id node_id s =
    if ltb proposal_id s.highest_known_proposal
    then (s, false)
    else if ltb s.highest_known_proposal proposal_id || ltb s.highest_proposal_provider node_id
    then (
      record s { highest_known_proposal = proposal_id; highest_proposal_provider = node_id },
      true,
    )
    else (s, false)

unfoldable pub try_update_log_value : ℕ → ℕ → LogValue → ProposerState → ProposerState × Bool
unfolding try_update_highest_proposal_id
try_update_log_value proposal_id node_id log_value s =
    let updated = try_update_highest_proposal_id proposal_id node_id s in
    if updated.1 then (record (updated.0) { log_value = log_value }, true) else (updated.0, false)

-- NewProposalId; the result is the new `my_proposal_id`.
unfoldable pub new_proposal_id : ProposerState → ProposerState
new_proposal_id s = record s {
  my_proposal_id =
      ((if ltb s.highest_known_proposal s.my_proposal_id
          then s.my_proposal_id
          else s.highest_known_proposal)
        + 1)
      % u64_mod;
}

unfoldable pub init : ℕ → ProposerState → ProposerState
init proposal_id s = record s { my_proposal_id = proposal_id }

unfoldable pub reset : ProposerState → ProposerState
reset s = record s {
  highest_known_proposal = proposal_dummy;
  highest_proposal_provider = node_dummy;
  log_value = [];
}
