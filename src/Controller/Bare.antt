-- ===== src/Controller/Bare.antt =====
-- A controller without a provider, which is what the program makes: nothing sets `proposal_prov_`.
use paxosme.Prelude.{◌≡◌}
use paxosme.Node.{Node}
use paxosme.Acceptor.Handlers as Acceptor
use paxosme.Proposer.Handlers as Proposer
use paxosme.Learner.Follow

-- What TryNewValue reads is the same.
record Stays {S : Type 0} (n n' : Node S) : Type 0 where
  options_are : n'.options ≡ n.options
  instance_is : n'.instance_id ≡ n.instance_id
  learner_is : n'.learner ≡ n.learner
  proposer_is : n'.proposer ≡ n.proposer
