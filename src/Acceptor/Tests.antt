-- ===== src/Acceptor/Tests.antt =====
-- The acceptor of `Samples` under the requests of node 3.
use paxosme.Prelude.{◌≡◌, refl, ◌⊎◌, inl, [], ◌∷◌, arith}
use paxosme.Store.Tests.{memory_storage, list_codec, memory_storage-ReadsBack}
use paxosme.Store.{read_log}
use paxosme.Node.{read_state}
use paxosme.Samples.{sample_node, sample_propose, sample_accept}
use paxosme.Acceptor.Handlers.{handle_propose, handle_accept, init}
use paxosme.State.Acceptor.{new_acceptor_state}
use paxosme.Acceptor.Promise.{
  PromiseLt, run, handle_propose_cases, handle_accept_cases, run_promise,
}
use paxosme.Acceptor.Restart.{restart_forgets}

handle_propose_cases_example :
    (handle_propose sample_propose sample_node).acceptor
    ≡ record (sample_node.acceptor) { promised_proposal_id = 5; promised_node_id = 3 }
handle_propose_cases_example =
    ((handle_propose_cases sample_propose sample_node).0 (inl (omega arith))).0

handle_accept_cases_example : (handle_accept sample_accept sample_node).acceptor ≡ record {
  promised_proposal_id = 5;
  promised_node_id = 3;
  accepted_proposal_id = 3;
  accepted_proposer = 3;
  accepted_value = 7 ∷ 8 ∷ [];
}
handle_accept_cases_example = (handle_accept_cases sample_accept sample_node).0 (inl (omega arith))

run_promise_example :
    ((run (sample_propose ∷ sample_accept ∷ []) sample_node).acceptor ≡ sample_node.acceptor)
    ⊎ PromiseLt sample_node.acceptor
        (run (sample_propose ∷ sample_accept ∷ []) sample_node).acceptor
run_promise_example = run_promise (sample_propose ∷ sample_accept ∷ []) sample_node

restart_forgets_example :
    init (record (run (sample_propose ∷ sample_accept ∷ []) sample_node) {
      acceptor = new_acceptor_state;
    })
    ≡ (
      record (run (sample_propose ∷ sample_accept ∷ []) sample_node) {
        acceptor = new_acceptor_state;
      },
      0,
    )
unfolding read_state read_log
restart_forgets_example =
    restart_forgets (sample_propose ∷ sample_accept ∷ []) sample_node
      memory_storage-ReadsBack.get-put_ne (omega arith) refl
