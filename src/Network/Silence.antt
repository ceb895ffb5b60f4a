-- ===== src/Network/Silence.antt =====
-- What reaches the clients of a network: PODMessage drops its message.
use paxosme.Prelude.{ℕ, ◌≡◌, refl, List, [], ◌∷◌, none, some, Bytes, All, All-append}
use paxosme.Message.{PaxMessage}
use paxosme.Network.Servers.{NetworkServer}
use paxosme.Network.Peers.{Inet, Peer, node_id_to_peer}
use paxosme.Network.Grpc.{grpc_send}
use paxosme.Network.Udp.{udp_send}
use paxosme.Network.Clients.{
  Network, ClientSend, NetworkCall, call_start, call_send, call_broadcast, pod_message, find_client,
  emplace, broadcast_loop, broadcast, send, call, run, grpc_client_send, udp_client_send,
}

module _ {R : Type 0} (client_send : ClientSend R) (P : Peer × R → Type 0)
    (each : (m : PaxMessage) (p : Peer) → All P (client_send (pod_message m) p)) where
  broadcast_loop-All :
      (message : PaxMessage) (cs : List (ℕ × Peer))
      → All P (broadcast_loop client_send (pod_message message) cs)
  unfolding broadcast_loop
  broadcast_loop-All message [] = tt
  broadcast_loop-All message ((_, p) ∷ cs) =
      All-append P (client_send (pod_message message) p) _ (each message p)
        (broadcast_loop-All message cs)

module _ {R S : Type 0} ⦃server : NetworkServer S⦄ ⦃inet : Inet⦄ (client_send : ClientSend R)
    (peer_hash : Peer → ℕ) (P : Peer × R → Type 0)
    (each : (m : PaxMessage) (p : Peer) → All P (client_send (pod_message m) p)) where
  call-All : (c : NetworkCall) (net : Network S) → All P (call client_send peer_hash c net).1
  unfolding call send broadcast
  call-All (call_start options) net = tt
  call-All (call_send node_id message) net =
      elim (find_client (peer_hash (node_id_to_peer node_id)) net.clients)
        as (λ f.
          All P
            (elim f as (λ _. Network S × List (Peer × R)) [
              | none ↦ (
                record net {
                  clients =
                      emplace (peer_hash (node_id_to_peer node_id)) (node_id_to_peer node_id)
                        net.clients;
                },
                client_send (pod_message message) (node_id_to_peer node_id),
              )
              | some client ↦ (net, client_send (pod_message message) client)
            ]).1) [
              | none ↦ each message (node_id_to_peer node_id)
              | some client ↦ each message client
            ]
  call-All (call_broadcast message) net = broadcast_loop-All client_send P each message net.clients

  -- What holds of all that Send makes of a message holds of all that calls give away.
  run-All : (cs : List NetworkCall) (net : Network S) → All P (run client_send peer_hash cs net).1
  unfolding run
  run-All [] net = tt
  run-All (c ∷ cs) net =
      All-append P (call client_send peer_hash c net).1 _ (call-All c net)
        (run-All cs (call client_send peer_hash c net).0)

none_of : {A : Type 0} (xs : List A) → All (λ (_ : A). ⊥) xs → xs ≡ []
none_of [] all = refl
none_of (x ∷ xs) (never, all) = absurd never

grpc_client_send-none :
    (m : PaxMessage) (p : Peer) → All (λ _. ⊥) (grpc_client_send (pod_message m) p)
unfolding grpc_client_send grpc_send pod_message
grpc_client_send-none m p = tt

abbrev IsEmpty : Peer × Bytes → Type 0
IsEmpty r = r.1 ≡ []

udp_client_send-IsEmpty :
    (m : PaxMessage) (p : Peer) → All IsEmpty (udp_client_send (pod_message m) p)
unfolding udp_client_send udp_send pod_message IsEmpty
udp_client_send-IsEmpty m p = (refl, tt)

-- However a node starts its network and sends and broadcasts its messages, whatever the messages, the
-- peers and their hashes are: with clients of gRPC not one request is made, and with clients of UDP
-- every datagram is empty.
pub nothing_is_sent :
    {S : Type 0} ⦃server : NetworkServer S⦄ ⦃inet : Inet⦄ (peer_hash : Peer → ℕ)
    (cs : List NetworkCall) (net : Network S)
    → ((run grpc_client_send peer_hash cs net).1 ≡ [])
      × All (λ (r : Peer × Bytes). r.1 ≡ []) (run udp_client_send peer_hash cs net).1
nothing_is_sent peer_hash cs net = (
  none_of _ (run-All grpc_client_send peer_hash (λ _. ⊥) grpc_client_send-none cs net),
  run-All udp_client_send peer_hash (λ (r : Peer × Bytes). r.1 ≡ []) udp_client_send-IsEmpty cs net,
)
