-- ===== src/Network/Exchange.antt =====
-- A client's Send to a UDP server that waits for a datagram, when nothing is lost on the way, the
-- text fits a datagram, and nothing else is sent.
use paxosme.Prelude.{
  ◌≤◌, take, drop, Option, some, none, drop_front_part, take_short, ℕ, ◌≡◌, refl, ap, ◌∙◌, Bool,
  true, false, [], ◌∷◌, ◌++◌, ltb, if◌then◌else◌, Bytes, length, length-append, arith,
}
use paxosme.Message.{PaxMessage}
use paxosme.Network.Grpc.{PodMsg}
use paxosme.Network.Clients.{pod_message}
use paxosme.Network.Udp.{
  UdpServer, Awaited, ready, blocks, receiving, sending, received, sent, handle, complete,
  on_received, on_sent, do_receive, udp_send, await_sent, await_reply, read_into,
}
use paxosme.Network.Echo.{handle_lem, taken, taken_text, received_text, received_uncalled}

-- The reply that the client waits for is there when the server has sent one back.
unfoldable pub reply_of_server : UdpServer → UdpServer → Awaited ℕ
reply_of_server before after =
    if ltb (length before.sent_back) (length after.sent_back)
    then ready (length after.sent_back)
    else blocks

-- Send's datagram arrives, and the server's reply goes out if it makes one.
unfoldable pub exchange : PodMsg → UdpServer → UdpServer × Awaited Bool
unfolding handle udp_send reply_of_server
exchange m s =
    let after = handle (sent false) (handle (received false m.proposed_log_value) s) in
    (
      after,
      (udp_send m (ready 1) (ready (length m.proposed_log_value)) (reply_of_server s after)).1,
    )

-- What Send finds in `recv_buf`, of 128 bytes, after it: the datagram that the server has sent back,
-- as far as it fits.
abbrev pub recv_buf_size : ℕ
recv_buf_size = 128

unfoldable pub recv_buf : UdpServer → UdpServer → Option Bytes
recv_buf before after = elim (drop (length before.sent_back) after.sent_back) [
  | [] ↦ none
  | text ∷ _ ↦ some (take recv_buf_size text)
]

recv_buf_lem :
    (s t : UdpServer) (text : Bytes)
    → t.sent_back ≡ s.sent_back ++ text ∷ []
    → length text ≤ recv_buf_size
    → recv_buf s t ≡ some text
unfolding recv_buf
recv_buf_lem s t text grown short =
    let behind = drop_front_part (length s.sent_back) s.sent_back (text ∷ []) refl in
    rw (recv_buf, grown, behind) (ap some (take_short recv_buf_size text short))

-- It waits for a datagram.
pub record IsWaiting (s : UdpServer) : Type 0 where
  pub runs : s.in_loop ≡ true
  pub waits : s.pending ≡ receiving ∷ []

exchange_lem :
    (m : PodMsg) (s arrived after : UdpServer)
    → IsWaiting s
    → complete (received false m.proposed_log_value) (receiving ∷ []) s ≡ arrived
    → handle (sent false) arrived ≡ after
    → exchange m s ≡ (after, await_reply (reply_of_server s after))
unfolding exchange udp_send await_sent
exchange_lem m s arrived after w arrives goes =
    ap (λ a. let t : UdpServer = handle (sent false) a in (t, await_reply (reply_of_server s t)))
      (handle_lem (received false m.proposed_log_value) (receiving ∷ []) s w.runs w.waits ∙ arrives)
    ∙ ap (λ (t : UdpServer). (t, await_reply (reply_of_server s t))) goes

no_reply :
    (s t : UdpServer) → t.sent_back ≡ s.sent_back → await_reply (reply_of_server s t) ≡ blocks
unfolding await_reply reply_of_server
no_reply s t same =
    let none_new : ltb (length s.sent_back) (length t.sent_back) ≡ false =
      ground (arith, ap length same) in
    simp none_new

-- Nothing comes back, and nothing was handed to the callback.
abbrev pub Stuck : UdpServer → UdpServer × Awaited Bool → Type 0
Stuck s r = (r.1 ≡ blocks) × (r.0.delivered ≡ s.delivered)

exchange_empty :
    (m : PodMsg) (s : UdpServer)
    → IsWaiting s
    → m.proposed_log_value ≡ []
    → Stuck s (exchange m s) × IsWaiting (exchange m s).0
unfolding do_receive read_into
exchange_empty m s w empty =
    let s' = do_receive (record s { data_ = read_into [] s.data_; pending = [] }) in
    let goes : handle (sent false) s' ≡ s' =
      unfold complete in handle_lem (sent false) (receiving ∷ []) s' w.runs refl in
    let arrives : complete (received false m.proposed_log_value) (receiving ∷ []) s ≡ s' =
      rw empty (unfold complete on_received in refl) in
    rw (exchange_lem m s s' s' w arrives goes)
      ((no_reply s s' refl, refl), record { runs = w.runs; waits = refl })

-- The server after it has sent a text back.
abbrev echoed : Bytes → UdpServer → UdpServer
echoed text s = record (taken text s) {
  pending = receiving ∷ [];
  sent_back = s.sent_back ++ text ∷ [];
}

sent_text :
    (b : ℕ) (bs : Bytes) (s : UdpServer)
    → complete (sent false) (sending (length (b ∷ bs)) ∷ []) (taken (b ∷ bs) s) ≡ echoed (b ∷ bs) s
unfolding complete on_sent do_receive
sent_text b bs s =
    ap (λ (x : Bytes). record (echoed (b ∷ bs) s) { sent_back = s.sent_back ++ x ∷ [] })
      (taken_text b bs s)

-- A text of at most 128 bytes that UdpClient::Send sends to a server that waits and has a
-- callback, with nothing lost on the way: the callback is called with it once, it comes back
-- unchanged into the buffer of Send, which returns true, and the server waits for the next one.
pub exchange_text :
    (m : PodMsg) (b : ℕ) (bs : Bytes) (s : UdpServer)
    → IsWaiting s
    → s.has_callback ≡ true
    → m.proposed_log_value ≡ b ∷ bs
    → length (b ∷ bs) ≤ recv_buf_size
    → ((exchange m s).1 ≡ ready true)
      × ((exchange m s).0.delivered ≡ s.delivered ++ (b ∷ bs) ∷ [])
      × ((exchange m s).0.sent_back ≡ s.sent_back ++ (b ∷ bs) ∷ [])
      × (recv_buf s (exchange m s).0 ≡ some (b ∷ bs))
      × IsWaiting (exchange m s).0
exchange_text m b bs s w called text short =
    let arrives : complete (received false m.proposed_log_value) (receiving ∷ []) s
        ≡ taken (b ∷ bs) s =
      rw text (received_text b bs s called) in
    let t = echoed (b ∷ bs) s in
    let goes : handle (sent false) (taken (b ∷ bs) s) ≡ t =
      handle_lem (sent false) (sending (length (b ∷ bs)) ∷ []) (taken (b ∷ bs) s) w.runs refl
      ∙ sent_text b bs s in
    let replied : await_reply (reply_of_server s t) ≡ ready true =
      let more : ltb (length s.sent_back) (length t.sent_back) ≡ true =
        ground (arith, length-append s.sent_back ((b ∷ bs) ∷ [])) in
      unfold await_reply reply_of_server in simp more in
    rw (exchange_lem m s _ t w arrives goes) (
      replied,
      refl,
      refl,
      recv_buf_lem s t (b ∷ bs) refl short,
      record { runs = w.runs; waits = refl },
    )

-- Where the callback is empty, the text is handed to nobody, nothing comes back and the loop ends; the
-- server still says that it runs.
pub exchange_uncalled :
    (m : PodMsg) (b : ℕ) (bs : Bytes) (s : UdpServer)
    → IsWaiting s
    → s.has_callback ≡ false
    → m.proposed_log_value ≡ b ∷ bs
    → Stuck s (exchange m s)
      × ((exchange m s).0.in_loop ≡ false)
      × ((exchange m s).0.is_running ≡ s.is_running)
exchange_uncalled m b bs s w uncalled text =
    let s' = record s { in_loop = false; data_ = read_into (b ∷ bs) s.data_; pending = [] } in
    let goes : handle (sent false) s' ≡ s' = unfold handle in refl in
    let arrives : complete (received false m.proposed_log_value) (receiving ∷ []) s ≡ s' =
      rw text (received_uncalled b bs s uncalled) in
    rw (exchange_lem m s s' s' w arrives goes) ((no_reply s s' refl, refl), refl, refl)

-- Whatever message the network is given, what it makes of it is sent as an empty datagram: nothing is
-- handed on and no reply comes, so that Send waits for ever.
pub message_blocks :
    (message : PaxMessage) (s : UdpServer)
    → IsWaiting s
    → Stuck s (exchange (pod_message message) s) × IsWaiting (exchange (pod_message message) s).0
message_blocks message s w = exchange_empty (pod_message message) s w (unfold pod_message in refl)
