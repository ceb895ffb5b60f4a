-- ===== src/Startup/Tests.antt =====
-- A node with one peer.
use paxosme.Prelude.{ℕ, ◌≡◌, ◌+◌, ◌*◌, ◌^◌, refl, [], ◌∷◌, Bytes, none, some, ok, All}
use paxosme.Samples.{sample_options}
use paxosme.Network.Peers.{Inet, Peer, no_address, peer_to_node_id}
use paxosme.Network.Servers.{new_servers, emplace_server, find_server}
use paxosme.Network.Clients.{Network, new_network}
use paxosme.Network.Udp.{UdpServer, new_udp_server}
use paxosme.Network.Serving.{udp_transport}
use paxosme.Startup.Defs.{NodeOptions, PaxosNode, run}
use paxosme.Startup.Deaf.{IsDeaf, node_hears_nothing}

abbrev read_number : Bytes → ℕ
read_number [] = no_address
read_number (a ∷ _) = a

instance abbrev plain_inet : Inet
plain_inet = record {
  inet_ntoa = λ a. a ∷ [];
  inet_addr = read_number;
  inet_addr-inet_ntoa = λ a small. refl;
}

abbrev own_peer : Peer
own_peer = record { ip = 7 ∷ []; port = 80 }

abbrev own_network : Network UdpServer
own_network = record { clients = []; servers = (7 * 2 ^ 32 + 80, new_udp_server own_peer) ∷ [] }

abbrev node_options : NodeOptions UdpServer ℕ ℕ
node_options = record {
  node_id_list = (7 * 2 ^ 32 + 80) ∷ [];
  node_id = 7 * 2 ^ 32 + 80;
  storage = some 1;
  sm = none;
  network = some own_network;
}

abbrev bare_node : PaxosNode UdpServer ℕ ℕ
bare_node = record { network = none; storage = none; sm = none }

node_hears_nothing_example :
    (started : PaxosNode UdpServer ℕ ℕ) × (net' : Network UdpServer) × (run
        (λ peer. peer.port)
        node_options
        sample_options
        bare_node
      ≡ ok started)
    × (started.network ≡ some net')
    × (started.storage ≡ some 1)
    × (started.sm ≡ none)
    × All (λ (e : ℕ × UdpServer). IsDeaf e.1) net'.servers
unfolding new_network new_servers peer_to_node_id emplace_server find_server
node_hears_nothing_example =
    node_hears_nothing (λ peer. peer.port) (own_peer ∷ []) own_network node_options sample_options
      bare_node refl refl
