-- ===== src/Network/Tests.antt =====
-- An address that is its own text, two peers, and messages between them.
use paxosme.Prelude.{
  arith, some, ℕ, ◌+◌, ◌*◌, ◌≡◌, ◌^◌, refl, true, List, [], ◌∷◌, Bytes, ok, All, false,
}
use paxosme.Message.{
  new_message, msg_propose_broadcast, msg_propose_ack, msg_accept_broadcast, to_int,
}
use paxosme.Network.Peers.{Inet, Peer, no_address, peer_to_node_id}
use paxosme.Network.Grpc.{PodMsg}
use paxosme.Network.Clients.{
  Network, NetworkOptions, new_network, start, destroy_network, call_start, call_send,
  call_broadcast, run, pod_message, NetworkCall, grpc_client_send, udp_client_send,
}
use paxosme.Network.Silence.{nothing_is_sent}
use paxosme.Network.Udp.{
  UdpServer, new_udp_server, start_udp, Completed, running_udp, handle_all, received, sent, ready,
}
use paxosme.Network.Echo.{Served, udp_echoes}
use paxosme.Network.Exchange.{exchange, recv_buf, exchange_text, IsWaiting}
use paxosme.Network.Servers.{new_servers, emplace_server, find_server, AllRunning, Has}
use paxosme.Network.Serving.{udp_transport, network_serves}
use paxosme.Network.Server.{Completion, handle_rpcs, start_server, new_server}
use paxosme.Network.Listening.{IsListening, server_listens}

abbrev read_number : Bytes → ℕ
read_number [] = no_address
read_number (a ∷ _) = a

instance abbrev plain_inet : Inet
plain_inet = record {
  inet_ntoa = λ a. a ∷ [];
  inet_addr = read_number;
  inet_addr-inet_ntoa = λ a small. refl;
}

abbrev sample_id : ℕ
sample_id = 7 * 2 ^ 32 + 80

abbrev sample_pod : PodMsg
sample_pod = record (pod_message (new_message 2 msg_propose_ack)) {
  message_type = to_int msg_propose_ack;
  sender_id = 2;
  instance_id = 4;
}

abbrev sample_peer : Peer
sample_peer = record { ip = 7 ∷ []; port = 80 }

abbrev sample_options : NetworkOptions
sample_options = record { peers = sample_peer ∷ []; self = sample_id; has_callback = true }

abbrev no_network : Network UdpServer
no_network = record { clients = []; servers = [] }

abbrev network_calls : List NetworkCall
network_calls =
    call_start sample_options
    ∷ call_send sample_id (new_message 2 msg_propose_broadcast)
    ∷ call_broadcast (new_message 2 msg_accept_broadcast)
    ∷ []

nothing_is_sent_example :
    ((run grpc_client_send (λ peer. peer.port) network_calls no_network).1 ≡ [])
    × All
        (λ (r : Peer × Bytes). r.1 ≡ [])
        (run udp_client_send (λ peer. peer.port) network_calls no_network).1
nothing_is_sent_example = nothing_is_sent (λ peer. peer.port) network_calls no_network

-- A proposal arrives, and its reply goes out.
abbrev two_completions : List Completion
two_completions =
    record { place = 4; is_ok = true; request = 5 ∷ [] }
    ∷ record { place = 0; is_ok = true; request = [] }
    ∷ []

server_listens_example : IsListening (handle_rpcs two_completions (start_server true new_server))
server_listens_example = server_listens two_completions (refl, (refl, tt))

abbrev sample_server : UdpServer
sample_server = start_udp true (new_udp_server sample_peer)

abbrev sample_reports : List Completed
sample_reports =
    received false (5 ∷ 6 ∷ [])
    ∷ sent false
    ∷ received false []
    ∷ received true (9 ∷ [])
    ∷ received false (8 ∷ [])
    ∷ []

udp_echoes_example :
    Served [] sample_reports (new_udp_server sample_peer) (handle_all sample_reports sample_server)
unfolding new_udp_server start_udp handle_all
udp_echoes_example = udp_echoes sample_peer sample_reports (tt, (tt, (tt, (tt, (tt, tt)))))

sample_server-IsWaiting : IsWaiting sample_server
unfolding start_udp new_udp_server
sample_server-IsWaiting = record { runs = refl; waits = refl }

exchange_text_example :
    ((exchange (record sample_pod { proposed_log_value = 3 ∷ [] }) sample_server).1 ≡ ready true)
    × ((exchange (record sample_pod { proposed_log_value = 3 ∷ [] }) sample_server).0.delivered
        ≡ (3 ∷ []) ∷ [])
    × ((exchange (record sample_pod { proposed_log_value = 3 ∷ [] }) sample_server).0.sent_back
        ≡ (3 ∷ []) ∷ [])
    × (recv_buf sample_server
          (exchange (record sample_pod { proposed_log_value = 3 ∷ [] }) sample_server).0
        ≡ some (3 ∷ []))
    × IsWaiting (exchange (record sample_pod { proposed_log_value = 3 ∷ [] }) sample_server).0
unfolding start_udp new_udp_server
exchange_text_example =
    exchange_text (record sample_pod { proposed_log_value = 3 ∷ [] }) 3 [] sample_server
      sample_server-IsWaiting refl refl (omega arith)

abbrev sample_network : Network UdpServer
sample_network = record { clients = []; servers = (sample_id, new_udp_server sample_peer) ∷ [] }

network_serves_example :
    All
      (λ (p : Peer).
        (j : ℕ) × (peer_to_node_id p ≡ ok j)
        × Has true (start (λ peer. peer.port) sample_options sample_network).servers j)
      (sample_peer ∷ [])
    × AllRunning true (start (λ peer. peer.port) sample_options sample_network).servers
    × All
        (λ (s : UdpServer). running_udp s ≡ false)
        (destroy_network (start (λ peer. peer.port) sample_options sample_network))
unfolding new_network new_servers peer_to_node_id emplace_server find_server
network_serves_example =
    network_serves (λ peer. peer.port) (sample_peer ∷ []) sample_options sample_network refl
