-- ===== src/Proposer/Status.antt =====
-- The statuses and the data of PaxProposer, and what a round does to them.
use paxosme.Prelude.{ℕ, Bool, true, false, [], ◌∷◌, if◌then◌else◌}
use paxosme.Message.{LogValue}
use paxosme.State.Counter
use paxosme.State.Counter.{ProposalCounter}
use paxosme.State.Proposer
use paxosme.State.Proposer.{ProposerState}
use paxosme.Node.{ProposerData, ProposerStatus, status_propose, status_accept}

abbrev pub propose_timeout : ℕ
propose_timeout = 50

abbrev pub accept_timeout : ℕ
accept_timeout = 50

unfoldable pub is_propose : ProposerStatus → Bool
is_propose status_propose = true
is_propose _ = false

unfoldable pub is_accept : ProposerStatus → Bool
is_accept status_accept = true
is_accept _ = false

-- The string is empty.
unfoldable pub is_empty : LogValue → Bool
is_empty [] = true
is_empty (b ∷ bs) = false

-- The proposer as Propose leaves it: a new round, under a new id if someone has rejected.
unfoldable pub begin_round : ProposerData → ProposerData
unfolding Counter.someone_reject Counter.reset Proposer.new_proposal_id
begin_round p = record p {
  status = status_propose;
  proposer_state =
      if Counter.someone_reject p.proposal_counter
      then Proposer.new_proposal_id p.proposer_state
      else p.proposer_state;
  proposal_counter = Counter.reset p.proposal_counter;
}

-- The value that clients hand in is taken only where no value is there yet.
unfoldable pub offer_value : LogValue → ProposerData → ProposerData
unfolding is_empty
offer_value v p =
    if is_empty p.proposer_state.log_value
    then record p { proposer_state = record (p.proposer_state) { log_value = v } }
    else p
