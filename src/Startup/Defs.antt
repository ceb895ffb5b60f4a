-- ===== src/Startup/Defs.antt =====
-- NodeOptions and Node. The storage and the state machine are kept and not called, so they are values
-- of any two types.
use paxosme.Prelude.{
  ℕ, Option, none, some, List, [], ◌∷◌, false, Run, ok, fault, null_pointer, ◌>>=◌,
}
use paxosme.Options.{PaxosOptions}
use paxosme.Network.Peers.{Inet, Peer, node_id_to_peer}
use paxosme.Network.PeerSet.{of_list}
use paxosme.Network.Servers.{NetworkServer}
use paxosme.Network.Clients.{Network, NetworkOptions, start}

-- A null pointer is `none`.
pub record NodeOptions (S L M : Type 0) : Type 0 where
  pub node_id_list : List ℕ
  pub node_id : ℕ
  pub storage : Option L
  pub sm : Option M
  pub network : Option (Network S)

-- Node's pointers; its `nodeId_` is never written.
pub record PaxosNode (S L M : Type 0) : Type 0 where
  pub network : Option (Network S)
  pub storage : Option L
  pub sm : Option M

unfoldable pub peers_of : ⦃inet : Inet⦄ → List ℕ → List Peer
unfolding node_id_to_peer
peers_of [] = []
peers_of (node_id ∷ node_ids) = node_id_to_peer node_id ∷ peers_of node_ids

module _ {S L M : Type 0} where
  -- Node::Init, whose body is a comment
  unfoldable pub init : ℕ → PaxosOptions → PaxosNode S L M → PaxosNode S L M
  init node_id paxos_options node = node

  -- Node::InitNetwork
  unfoldable pub init_network :
      ⦃server : NetworkServer S⦄
      → (peer_hash : Peer → ℕ) → NetworkOptions
      → PaxosNode S L M
      → Run (PaxosNode S L M)
  unfolding start
  init_network peer_hash network_options node = elim node.network [
    | none ↦ fault null_pointer
    | some net ↦ ok (record node { network = some (start peer_hash network_options net) })
  ]

  -- Node::Run; the network's options are given no callback.
  unfoldable pub run :
      ⦃server : NetworkServer S⦄
      → ⦃inet : Inet⦄ → (peer_hash : Peer → ℕ) → NodeOptions S L M
      → PaxosOptions
      → PaxosNode S L M
      → Run (PaxosNode S L M)
  unfolding init init_network peers_of of_list
  run peer_hash options paxos_options node =
      init_network peer_hash
        (record {
          peers = of_list (peers_of options.node_id_list) [];
          self = paxos_options.node_id;
          has_callback = false;
        })
        (record (init options.node_id paxos_options node) { network = options.network })
      >>= λ started. ok (record started { storage = options.storage; sm = options.sm })
