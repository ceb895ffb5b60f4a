-- ===== src/Network/Serving.antt =====
-- The two implementations of NetworkServer, and what New, Start and the destructor of a network make
-- of its servers.
use paxosme.Prelude.{
  ℕ, ◌≡◌, refl, Bool, true, false, List, [], All, ok, >>=-eq-ok, inl, inr, Bool-cases,
}
use paxosme.Network.Peers.{Inet, Peer, peer_to_node_id}
use paxosme.Network.Servers.{
  NetworkServer, new_servers, start_servers, AllRunning, Has, Placed, start_servers-AllRunning,
  shutdown_servers_lem, new_servers-find, started_servers,
}
use paxosme.Network.Server.{GrpcServer, new_server, start_server, shutdown_server}
use paxosme.Network.Udp.{UdpServer, new_udp_server, start_udp, shutdown_udp, running_udp}
use paxosme.Network.Clients.{Network, NetworkOptions, new_network, start, destroy_network}

pub shutdown_udp-running : (s : UdpServer) → running_udp (shutdown_udp s) ≡ false
unfolding running_udp shutdown_udp
shutdown_udp-running s = elim (Bool-cases s.is_running) [ inl on ↦ simp on | inr off ↦ simp off ]

pub shutdown_server-running : (s : GrpcServer) → (shutdown_server s).is_running ≡ false
unfolding shutdown_server
shutdown_server-running s = elim (Bool-cases s.is_running) [ inl on ↦ simp on | inr off ↦ simp off ]

pub new_udp_server-running : (peer : Peer) → running_udp (new_udp_server peer) ≡ false
unfolding new_udp_server running_udp
new_udp_server-running peer = refl

pub start_udp-running : (c : Bool) (s : UdpServer) → running_udp (start_udp c s) ≡ true
unfolding start_udp running_udp
start_udp-running c s = refl

pub start_server-running : (c : Bool) (s : GrpcServer) → (start_server c s).is_running ≡ true
unfolding start_server
start_server-running c s = refl

instance abbrev pub udp_transport : NetworkServer UdpServer
udp_transport = record {
  new_server = new_udp_server;
  start = start_udp;
  shutdown = shutdown_udp;
  running = running_udp;
  new-running = new_udp_server-running;
  start-running = start_udp-running;
  shutdown-running = shutdown_udp-running;
}

instance abbrev pub grpc_transport : NetworkServer GrpcServer
grpc_transport = record {
  new_server = λ peer. new_server;
  start = start_server;
  shutdown = shutdown_server;
  running = λ s. s.is_running;
  new-running = λ peer. refl;
  start-running = start_server-running;
  shutdown-running = shutdown_server-running;
}

-- Over any implementation of NetworkServer: where New makes a network for some peers, Start
-- leaves a running server under the id of every peer, all servers run, and the destructor frees
-- none that still runs.
pub network_serves :
    {S : Type 0} ⦃server : NetworkServer S⦄ ⦃inet : Inet⦄ (peer_hash : Peer → ℕ) (peers : List Peer)
    (options : NetworkOptions) (net : Network S)
    → new_network peers ≡ ok net
    → All
        (λ (p : Peer).
          (j : ℕ) × (peer_to_node_id p ≡ ok j) × Has true (start peer_hash options net).servers j)
        peers
      × AllRunning true (start peer_hash options net).servers
      × All (λ (s : S). server.running s ≡ false) (destroy_network (start peer_hash options net))
unfolding new_network start destroy_network
network_serves {S} peer_hash peers options net e =
    let (made, servers, built) = >>=-eq-ok (new_servers {S = S} peers []) _ e in
    let same : made ≡ net.servers = cc in
    let placed : All (Placed net.servers) peers =
      rw (← same) ((new_servers-find peers [] made servers).1) in
    (
      started_servers options.has_callback peers net.servers placed,
      start_servers-AllRunning options.has_callback net.servers,
      (shutdown_servers_lem (start_servers options.has_callback net.servers)).0,
    )
