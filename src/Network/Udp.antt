-- ===== src/Network/Udp.antt =====
-- UdpServer and UdpClient over Boost.Asio: what the handlers of the server's two operations do, and
-- what a client's Send waits for. A completion is what Asio reports of an operation.
use paxosme.Prelude.{
  ℕ, ◌*◌, Bool, true, false, not, ◌&&◌, Option, none, some, List, [], ◌∷◌, ◌++◌, ltb, if◌then◌else◌,
  Bytes, length, take, drop,
}
use paxosme.Network.Peers.{Peer}
use paxosme.Network.Grpc.{PodMsg}

-- An operation that waits for its completion.
pub data Operation : Type 0 where
  receiving : Operation
  sending : (size : ℕ) → Operation

-- `data_` is the buffer that a datagram is read into and sent from, `pending` what the socket waits
-- for, `local_port` the port of its socket, whose address is any, `in_loop` whether `io_service_.run` is under way. `has_callback` is false while `msgCallback_`
-- is an empty std::function; `delivered` are the texts that the callback was called with, `sent_back`
-- the datagrams that have gone out.
pub record UdpServer : Type 0 where
  pub local_port : ℕ
  pub is_running : Bool
  pub in_loop : Bool
  pub has_callback : Bool
  pub data_ : Bytes
  pub pending : List Operation
  pub delivered : List Bytes
  pub sent_back : List Bytes

abbrev pub max_length : ℕ
max_length = 1024 * 1024

-- UdpServer::UdpServer
unfoldable pub new_udp_server : Peer → UdpServer
new_udp_server peer = record {
  local_port = peer.port;
  is_running = false;
  in_loop = false;
  has_callback = false;
  data_ = [];
  pending = [];
  delivered = [];
  sent_back = [];
}

-- DoReceive, up to its handler
unfoldable pub do_receive : UdpServer → UdpServer
do_receive s = record s { pending = s.pending ++ receiving ∷ [] }

-- DoSend, up to its handler: the socket sends what the buffer holds when it comes to it.
unfoldable pub do_send : ℕ → UdpServer → UdpServer
do_send size s = record s { pending = s.pending ++ sending size ∷ [] }

-- Start, with the thread that it begins as far as `run`
unfoldable pub start_udp : Bool → UdpServer → UdpServer
unfolding do_receive
start_udp has_callback s =
    do_receive (record s { has_callback = has_callback; is_running = true; in_loop = true })

-- Shutdown: `stop` ends the loop, and no handler runs after it.
unfoldable pub shutdown_udp : UdpServer → UdpServer
shutdown_udp s = if s.is_running then record s { in_loop = false; is_running = false } else s

-- Running
unfoldable pub running_udp : UdpServer → Bool
running_udp s = s.is_running

-- UdpServer::~UdpServer
unfoldable pub destroy_udp : UdpServer → UdpServer
unfolding running_udp shutdown_udp
destroy_udp s = if running_udp s then shutdown_udp s else s

-- A call of the callback. An empty std::function throws, which ends the loop.
unfoldable pub call_back : Bytes → UdpServer → (UdpServer → UdpServer) → UdpServer
call_back text s next =
    if s.has_callback
    then next (record s { delivered = s.delivered ++ text ∷ [] })
    else record s { in_loop = false }

-- The handler of DoReceive, on a datagram that has been read into the buffer
unfoldable pub on_received : Bool → ℕ → UdpServer → UdpServer
unfolding call_back do_send do_receive
on_received ec bytes_recvd s =
    if not ec && ltb 0 bytes_recvd
    then call_back (take bytes_recvd s.data_) s (do_send bytes_recvd)
    else do_receive s

-- The handler of DoSend
unfoldable pub on_sent : UdpServer → UdpServer
unfolding do_receive
on_sent s = do_receive s

-- A datagram in the buffer; what is past its end stays.
unfoldable pub read_into : Bytes → Bytes → Bytes
read_into bytes buffer = bytes ++ drop (length bytes) buffer

-- What Asio reports: a datagram of `bytes`, at most `max_length` of them, or an error; a reply has
-- gone out, or has failed.
pub data Completed : Type 0 where
  received : (ec : Bool) (bytes : Bytes) → Completed
  sent : (ec : Bool) → Completed

-- The operation that waits longest is completed, if it is of that kind and the loop runs.
unfoldable pub complete : Completed → List Operation → UdpServer → UdpServer
unfolding on_received on_sent read_into
complete (received ec bytes) (receiving ∷ ops) s =
    on_received ec (length bytes) (record s { data_ = read_into bytes s.data_; pending = ops })
complete (sent ec) (sending size ∷ ops) s = on_sent (record s {
  pending = ops;
  sent_back = if ec then s.sent_back else s.sent_back ++ take size s.data_ ∷ [];
})
complete _ _ s = s

unfoldable pub handle : Completed → UdpServer → UdpServer
unfolding complete
handle e s = if s.in_loop then complete e s.pending s else s

unfoldable pub handle_all : List Completed → UdpServer → UdpServer
unfolding handle
handle_all [] s = s
handle_all (e ∷ es) s = handle_all es (handle e s)

-- What a future gives: its value, an exception, or nothing for ever.
pub data Awaited {ℓ} (A : Type ℓ) : Type ℓ where
  ready : A → Awaited A
  throws : Awaited A
  blocks : Awaited A

-- The futures of one Send: the resolver's, the send's and the reply's. Each is waited for before the
-- next operation begins.
unfoldable pub await_reply : Awaited ℕ → Awaited Bool
await_reply (ready recv_size) = ready true
await_reply throws = ready false
await_reply blocks = blocks

unfoldable pub await_sent : Awaited ℕ → Awaited ℕ → Awaited Bool
unfolding await_reply
await_sent (ready send_size) reply = await_reply reply
await_sent throws reply = ready false
await_sent blocks reply = blocks

-- UdpClient::Send: the datagram, if one is made, and the result. A text that no datagram takes makes
-- the send's future throw; the reply is read into a buffer of 128 bytes, which is logged only.
unfoldable pub udp_send :
    PodMsg → (resolved sent_size reply : Awaited ℕ) → Option Bytes × Awaited Bool
unfolding await_sent
udp_send m (ready _) sent_size reply = (some m.proposed_log_value, await_sent sent_size reply)
udp_send m throws sent_size reply = (none, ready false)
udp_send m blocks sent_size reply = (none, blocks)
