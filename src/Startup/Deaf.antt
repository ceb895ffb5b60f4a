-- ===== src/Startup/Deaf.antt =====
-- Over UDP the servers of a node that Run has started hand nothing on.
use paxosme.Prelude.{
  ℕ, ◌≡◌, refl, true, false, Option, none, some, List, [], ◌∷◌, All, ok, >>=-eq-ok, Bytes,
}
use paxosme.Options.{PaxosOptions}
use paxosme.Network.Peers.{Inet, Peer, peer_to_node_id}
use paxosme.Network.Grpc.{PodMsg}
use paxosme.Network.PeerSet.{of_list}
use paxosme.Network.Servers.{find_server, new_servers, start_servers, emplace_server}
use paxosme.Network.Clients.{Network, NetworkOptions, new_network, start}
use paxosme.Network.Udp.{UdpServer, new_udp_server, start_udp}
use paxosme.Network.Exchange.{exchange, exchange_uncalled, Stuck}
use paxosme.Network.Serving.{udp_transport}
use paxosme.Startup.Defs.{NodeOptions, PaxosNode, run, init, init_network, peers_of}

-- A server as its constructor leaves it.
abbrev IsNew : UdpServer → Type 0
IsNew s = (peer : Peer) × (s ≡ new_udp_server peer)

emplace-All :
    (P : UdpServer → Type 0) (node_id : ℕ) (new : UdpServer) (ss : List (ℕ × UdpServer))
    → P new
    → All (λ (e : ℕ × UdpServer). P e.1) ss
    → All (λ (e : ℕ × UdpServer). P e.1) (emplace_server node_id new ss)
unfolding emplace_server
emplace-All P node_id new ss p ps =
    elim (find_server node_id ss)
      as (λ (o : Option UdpServer).
        All (λ (e : ℕ × UdpServer). P e.1) (elim o [ none ↦ (node_id, new) ∷ ss | some _ ↦ ss ])) [
          | none ↦ (p, ps)
          | some _ ↦ ps
        ]

new_servers-IsNew :
    ⦃inet : Inet⦄ (ps : List Peer) (ss made : List (ℕ × UdpServer))
    → All (λ (e : ℕ × UdpServer). IsNew e.1) ss
    → new_servers ps ss ≡ ok made
    → All (λ (e : ℕ × UdpServer). IsNew e.1) made
unfolding new_servers
new_servers-IsNew [] ss made new e = let same : ss ≡ made = cc in rw (← same) new
new_servers-IsNew (p ∷ ps) ss made new e =
    let (node_id, placed, rest) = >>=-eq-ok (peer_to_node_id p) _ e in
    new_servers-IsNew ps _ made (emplace-All IsNew node_id (new_udp_server p) ss (p, refl) new) rest

-- The server runs, and a text that a client sends it ends its loop: the callback is not called, the
-- client waits for ever, and the server goes on saying that it runs.
abbrev pub IsDeaf : UdpServer → Type 0
IsDeaf s =
    (m : PodMsg) (b : ℕ) (bs : Bytes)
    → m.proposed_log_value ≡ b ∷ bs
    → Stuck s (exchange m s)
      × ((exchange m s).0.in_loop ≡ false)
      × ((exchange m s).0.is_running ≡ true)

new_server-IsDeaf : (peer : Peer) → IsDeaf (start_udp false (new_udp_server peer))
unfolding start_udp new_udp_server
new_server-IsDeaf peer m b bs text =
    exchange_uncalled m b bs (start_udp false (new_udp_server peer))
      (record { runs = refl; waits = refl }) refl text

start_servers-IsDeaf :
    (ss : List (ℕ × UdpServer))
    → All (λ (e : ℕ × UdpServer). IsNew e.1) ss
    → All (λ (e : ℕ × UdpServer). IsDeaf e.1) (start_servers false ss)
unfolding start_servers
start_servers-IsDeaf [] new = tt
start_servers-IsDeaf ((i, s) ∷ ss) ((peer, e), new) =
    (rw e (new_server-IsDeaf peer), start_servers-IsDeaf ss new)

-- Over UDP, Node::Run with a network that New has made returns a node with the storage and the
-- state machine of its options; but the callback of its servers is empty: the first text that a
-- client sends to any of them ends its loop, is handed to nobody and never answered, while the
-- server goes on saying that it runs.
pub node_hears_nothing :
    {L M : Type 0} ⦃inet : Inet⦄ (peer_hash : Peer → ℕ) (peers : List Peer)
    (net : Network UdpServer) (options : NodeOptions UdpServer L M) (paxos_options : PaxosOptions)
    (node : PaxosNode UdpServer L M)
    → new_network peers ≡ ok net
    → options.network ≡ some net
    → (started : PaxosNode UdpServer L M) × (net' : Network UdpServer) × (run peer_hash options
          paxos_options node
        ≡ ok started)
      × (started.network ≡ some net')
      × (started.storage ≡ options.storage)
      × (started.sm ≡ options.sm)
      × All (λ (e : ℕ × UdpServer). IsDeaf e.1) net'.servers
unfolding run init_network init new_network start
node_hears_nothing {L} {M} peer_hash peers net options paxos_options node made given =
    let network_options : NetworkOptions = record {
      peers = of_list (peers_of options.node_id_list) [];
      self = paxos_options.node_id;
      has_callback = false;
    } in
    let net' : Network UdpServer = start peer_hash network_options net in
    let started : PaxosNode UdpServer L M = record {
      network = some net';
      storage = options.storage;
      sm = options.sm;
    } in
    let (servers, placed, built) = >>=-eq-ok (new_servers {S = UdpServer} peers []) _ made in
    let same : servers ≡ net.servers = cc in
    (
      started,
      net',
      rw given refl,
      refl,
      refl,
      refl,
      start_servers-IsDeaf net.servers (rw (← same) (new_servers-IsNew peers [] servers tt placed)),
    )
