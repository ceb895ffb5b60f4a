-- ===== src/Controller/Tests.antt =====
-- The controller of `Samples`' node.
use paxosme.Prelude.{◌≡◌, refl, [], ◌∷◌, List, Bytes, ok}
use paxosme.State.Learner.{new_learner}
use paxosme.Store.Tests.{memory_storage, list_codec}
use paxosme.Node.{Node}
use paxosme.Samples.{sample_node, sample_propose, sample_accept}
use paxosme.Acceptor.Promise as Promise
use paxosme.Controller.Routing.{run, run-acceptor}
use paxosme.Learner.Handlers as Learner
use paxosme.Learner.Follow

run-acceptor_example :
    run 1 (sample_propose ∷ sample_accept ∷ []) sample_node
    ≡ ok (Promise.run (sample_propose ∷ sample_accept ∷ []) sample_node)
unfolding new_learner
run-acceptor_example = (run-acceptor 0 (sample_propose ∷ sample_accept ∷ []) sample_node refl).0

-- The node as Init of the learner leaves it.
abbrev new_node : Node (List (Bytes × Bytes))
unfolding Learner.init
new_node = Learner.init sample_node
