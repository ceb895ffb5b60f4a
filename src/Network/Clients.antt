-- ===== src/Network/Clients.antt =====
-- Network and Communicator: a client for each hash of a peer, and what the messages of a node become.
-- The hash is computed in floating point, and is a parameter, as is NetworkClient::Send, which is
-- GrpcClient's or UdpClient's.
use paxosme.Prelude.{
  Bytes, ℕ, false, Option, none, some, List, [], ◌∷◌, ◌++◌, ◌==◌, if◌then◌else◌, Run, ok, fault,
  null_pointer, ◌>>=◌, Bool,
}
use paxosme.Message.{PaxMessage}
use paxosme.Network.Servers.{
  NetworkServer, find_server, new_servers, start_servers, shutdown_servers,
}
use paxosme.Network.PeerSet.{PeerSet}
use paxosme.Network.Peers.{Inet, Peer, node_id_to_peer}
use paxosme.Network.Grpc.{PodMsg, Request, grpc_send}
use paxosme.Network.Udp.{udp_send, ready, blocks}

-- NetworkImpl: the clients under their hashes, and the servers under the ids of their peers.
pub record Network (S : Type 0) : Type 0 where
  pub clients : List (ℕ × Peer)
  pub servers : List (ℕ × S)

-- NetworkOptions; `has_callback` is false where `msgCallback` is an empty std::function.
pub record NetworkOptions : Type 0 where
  pub peers : PeerSet
  pub self : ℕ
  pub has_callback : Bool

-- What NetworkClient::Send gives away, each with the peer that it goes to: `R` is a request of gRPC,
-- or a datagram.
abbrev pub ClientSend : Type 0 → Type 0
ClientSend R = PodMsg → Peer → List (Peer × R)

-- PODMessage: a message of zeros.
unfoldable pub pod_message : PaxMessage → PodMsg
pod_message message = record {
  message_type = 0;
  proposed_log_value = [];
  accepted_value = [];
  learned_value = [];
  chosen_value = [];
  promised_proposal_id = 0;
  promised_node_id = 0;
  instance_id = 0;
  proposal_id = 0;
  proposing_node_id = 0;
  following_node_id = 0;
  accepted_proposal_id = 0;
  leader_instance_id = 0;
  sender_id = 0;
  rejected = false;
}

unfoldable pub find_client : ℕ → List (ℕ × Peer) → Option Peer
find_client hash [] = none
find_client hash ((h, p) ∷ cs) = if h == hash then some p else find_client hash cs

-- emplace: a hash that is there keeps its client.
unfoldable pub emplace : ℕ → Peer → List (ℕ × Peer) → List (ℕ × Peer)
unfolding find_client
emplace hash peer cs = elim (find_client hash cs) [ none ↦ (hash, peer) ∷ cs | some _ ↦ cs ]

-- Send of a GrpcClient
unfoldable pub grpc_client_send : ClientSend Request
unfolding grpc_send
grpc_client_send m peer = elim (grpc_send m) [ none ↦ [] | some r ↦ (peer, r) ∷ [] ]

-- Send of a UdpClient whose resolver has found the peer
unfoldable pub udp_client_send : ClientSend Bytes
unfolding udp_send
udp_client_send m peer = elim (udp_send m (ready 1) blocks blocks).0 [
  | none ↦ []
  | some datagram ↦ (peer, datagram) ∷ []
]

-- Network::New; the first id that fails its assertion ends the program.
unfoldable pub new_network :
    {S : Type 0} → ⦃server : NetworkServer S⦄ → ⦃inet : Inet⦄ → List Peer → Run (Network S)
unfolding new_servers
new_network peers = new_servers peers [] >>= λ ss. ok (record { clients = []; servers = ss })

-- NetworkImpl::~NetworkImpl: the servers as they are freed
unfoldable pub destroy_network : {S : Type 0} → ⦃server : NetworkServer S⦄ → Network S → List S
unfolding shutdown_servers
destroy_network net = shutdown_servers net.servers

-- Network::Quit; operator[] at an id that is not there gives a null pointer.
unfoldable pub quit : {S : Type 0} → ℕ → Network S → Run (Network S)
unfolding find_server
quit node_id net = elim (find_server node_id net.servers) [
  | some _ ↦ ok net
  | none ↦ fault null_pointer
]

module _ {R : Type 0} (client_send : ClientSend R) where
  unfoldable pub broadcast_loop : PodMsg → List (ℕ × Peer) → List (Peer × R)
  broadcast_loop m [] = []
  broadcast_loop m ((_, p) ∷ cs) = client_send m p ++ broadcast_loop m cs

  -- Network::Broadcast
  unfoldable pub broadcast : {S : Type 0} → PaxMessage → Network S → List (Peer × R)
  unfolding broadcast_loop pod_message
  broadcast message net = broadcast_loop (pod_message message) net.clients

module _ (peer_hash : Peer → ℕ) where
  unfoldable pub start_loop : List Peer → List (ℕ × Peer) → List (ℕ × Peer)
  unfolding emplace
  start_loop [] cs = cs
  start_loop (p ∷ ps) cs = start_loop ps (emplace (peer_hash p) p cs)

  -- Network::Start
  unfoldable pub start :
      {S : Type 0} → ⦃server : NetworkServer S⦄ → NetworkOptions → Network S → Network S
  unfolding start_loop start_servers
  start network_options net = record net {
    clients = start_loop network_options.peers net.clients;
    servers = start_servers network_options.has_callback net.servers;
  }

module _ {R : Type 0} (client_send : ClientSend R) (peer_hash : Peer → ℕ) where
  -- Network::Send
  unfoldable pub send : {S : Type 0} → Peer → PaxMessage → Network S → Network S × List (Peer × R)
  unfolding find_client emplace pod_message
  send peer message net = elim (find_client (peer_hash peer) net.clients) [
    | none ↦ (
      record net { clients = emplace (peer_hash peer) peer net.clients },
      client_send (pod_message message) peer,
    )
    | some client ↦ (net, client_send (pod_message message) client)
  ]

-- What a node calls.
pub data NetworkCall : Type 0 where
  call_start : NetworkOptions → NetworkCall
  call_send : (node_id : ℕ) (message : PaxMessage) → NetworkCall
  call_broadcast : (message : PaxMessage) → NetworkCall

module _ {R S : Type 0} ⦃server : NetworkServer S⦄ ⦃inet : Inet⦄ (client_send : ClientSend R)
    (peer_hash : Peer → ℕ) where
  -- Start, and SendMessage and BroadcastMessage of the Communicator
  unfoldable pub call : NetworkCall → Network S → Network S × List (Peer × R)
  unfolding start send broadcast node_id_to_peer
  call (call_start options) net = (start peer_hash options net, [])
  call (call_send node_id message) net =
      send client_send peer_hash (node_id_to_peer node_id) message net
  call (call_broadcast message) net = (net, broadcast client_send message net)

  unfoldable pub run : List NetworkCall → Network S → Network S × List (Peer × R)
  unfolding call
  run [] net = (net, [])
  run (c ∷ cs) net = let done = call c net in let rest = run cs done.0 in (rest.0, done.1 ++ rest.1)
