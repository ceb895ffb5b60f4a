-- ===== src/Network/Echo.antt =====
-- The UDP server takes its operations in turn, and answers each datagram with itself.
use mathlib.Core.Path.{subst}
use mathlib.Core.List.{append_assoc, append-nil}
use paxosme.Prelude.{
  ℕ, ◌≡◌, refl, sym, ap, ◌∙◌, Bool, true, false, List, [], ◌∷◌, ◌++◌, inl, inr, ltb, Bytes, length,
  take, drop, take-append, arith, ◌⊎◌, if◌then◌else◌,
}
use paxosme.Network.Peers.{Peer}
use paxosme.Network.Udp.{
  Operation, receiving, sending, UdpServer, Completed, received, sent, new_udp_server, start_udp,
  handle, handle_all, complete, on_received, on_sent, call_back, do_receive, do_send, read_into,
}

-- The report is of the operation that waits.
abbrev pub Suits : Completed → List Operation → Type 0
Suits (received ec bytes) (receiving ∷ _) = Unit {0}
Suits (sent ec) (sending _ ∷ _) = Unit {0}
Suits _ _ = ⊥

abbrev pub AllSuit : List Completed → UdpServer → Type 0
AllSuit [] s = Unit {0}
AllSuit (e ∷ es) s = Suits e s.pending × AllSuit es (handle e s)

-- A datagram that arrives whole and is not empty.
unfoldable pub datagram_of : Completed → List Bytes
datagram_of (received false (b ∷ bs)) = (b ∷ bs) ∷ []
datagram_of (received false []) = []
datagram_of (received true bytes) = []
datagram_of (sent ec) = []

unfoldable pub datagrams : List Completed → List Bytes
unfolding datagram_of
datagrams [] = []
datagrams (e ∷ es) = datagram_of e ++ datagrams es

-- What goes out with a report, and the text received last, where `last` came before.
unfoldable pub reply_of : (last : Bytes) → Completed → List Bytes
reply_of last (sent false) = last ∷ []
reply_of last (sent true) = []
reply_of last (received ec bytes) = []

unfoldable pub last_of : (last : Bytes) → Completed → Bytes
last_of last (received ec bytes) = bytes
last_of last (sent ec) = last

-- The replies, each the datagram that came last.
unfoldable pub replies : (last : Bytes) → List Completed → List Bytes
unfolding reply_of last_of
replies last [] = []
replies last (e ∷ es) = reply_of last e ++ replies (last_of last e) es

-- The loop runs, and one operation waits: for a datagram, or for the reply to the last one.
abbrev pub Turn : Bytes → UdpServer → Type 0
Turn last s =
    (s.in_loop ≡ true)
    × (s.has_callback ≡ true)
    × ((s.pending ≡ receiving ∷ [])
        ⊎ ((s.pending ≡ sending (length last) ∷ []) × (take (length last) s.data_ ≡ last)))

-- What the reports make of a server.
abbrev pub Served : Bytes → List Completed → UdpServer → UdpServer → Type 0
Served last es s t =
    (length t.pending ≡ 1)
    × (t.in_loop ≡ true)
    × (t.delivered ≡ s.delivered ++ datagrams es)
    × (t.sent_back ≡ s.sent_back ++ replies last es)

pub handle_lem :
    (e : Completed) (ops : List Operation) (s : UdpServer)
    → s.in_loop ≡ true
    → s.pending ≡ ops
    → handle e s ≡ complete e ops s
unfolding handle
handle_lem e ops s runs waits =
    ap (λ (b : Bool). if b then complete e s.pending s else s) runs
    ∙ ap (λ (o : List Operation). complete e o s) waits

-- What one report makes of a server.
abbrev Step : Bytes → Completed → UdpServer → UdpServer → Type 0
Step last e s t =
    Turn (last_of last e) t
    × (t.delivered ≡ s.delivered ++ datagram_of e)
    × (t.sent_back ≡ s.sent_back ++ reply_of last e)

-- The server with a text in its buffer, which it has handed on and is about to send back.
abbrev pub taken : Bytes → UdpServer → UdpServer
taken text s = record s {
  data_ = read_into text s.data_;
  pending = sending (length text) ∷ [];
  delivered = s.delivered ++ text ∷ [];
}

pub taken_text :
    (b : ℕ) (bs : Bytes) (s : UdpServer) → take (length (b ∷ bs)) (taken (b ∷ bs) s).data_ ≡ b ∷ bs
unfolding read_into
taken_text b bs s = take-append (b ∷ bs) (drop (length (b ∷ bs)) s.data_)

-- A text arrives, where the callback is set and where it is empty.
pub received_text :
    (b : ℕ) (bs : Bytes) (s : UdpServer)
    → s.has_callback ≡ true
    → complete (received false (b ∷ bs)) (receiving ∷ []) s ≡ taken (b ∷ bs) s
unfolding complete on_received do_send call_back
received_text b bs s called =
    let positive : ltb 0 (length (b ∷ bs)) ≡ true = ground arith in
    let text = taken_text b bs s in simp (called, positive, text)

pub received_uncalled :
    (b : ℕ) (bs : Bytes) (s : UdpServer)
    → s.has_callback ≡ false
    → complete (received false (b ∷ bs)) (receiving ∷ []) s
      ≡ record s { in_loop = false; data_ = read_into (b ∷ bs) s.data_; pending = [] }
unfolding complete on_received call_back
received_uncalled b bs s uncalled =
    let positive : ltb 0 (length (b ∷ bs)) ≡ true = ground arith in simp (uncalled, positive)

received-Step :
    (last : Bytes) (ec : Bool) (bytes : Bytes) (s : UdpServer)
    → s.in_loop ≡ true
    → s.has_callback ≡ true
    → Step last (received ec bytes) s (complete (received ec bytes) (receiving ∷ []) s)
unfolding last_of reply_of datagram_of
received-Step last true bytes s runs called =
    unfold complete on_received do_receive in
    ((runs, called, inl refl), sym (append-nil _), sym (append-nil _))
received-Step last false [] s runs called =
    unfold complete on_received do_receive in
    ((runs, called, inl refl), sym (append-nil _), sym (append-nil _))
received-Step last false (b ∷ bs) s runs called =
    rw (received_text b bs s called)
      ((runs, called, inr (refl, taken_text b bs s)), refl, sym (append-nil _))

pub sent-Step :
    (last : Bytes) (ec : Bool) (s : UdpServer)
    → s.in_loop ≡ true
    → s.has_callback ≡ true
    → take (length last) s.data_ ≡ last
    → Step last (sent ec) s (complete (sent ec) (sending (length last) ∷ []) s)
unfolding complete on_sent do_receive last_of reply_of datagram_of
sent-Step last true s runs called held =
    ((runs, called, inl refl), sym (append-nil _), sym (append-nil _))
sent-Step last false s runs called held =
    ((runs, called, inl refl), sym (append-nil _), ap (λ r. s.sent_back ++ r ∷ []) held)

handle-Step :
    (e : Completed) (last : Bytes) (s : UdpServer)
    → Turn last s
    → Suits e s.pending
    → Step last e s (handle e s)
handle-Step (received ec bytes) last s (runs, called, inl waits) suits =
    rw (handle_lem (received ec bytes) _ s runs waits) (received-Step last ec bytes s runs called)
handle-Step (received ec bytes) last s (runs, called, inr (waits, held)) suits =
    absurd (subst (Suits (received ec bytes)) waits suits)
handle-Step (sent ec) last s (runs, called, inl waits) suits =
    absurd (subst (Suits (sent ec)) waits suits)
handle-Step (sent ec) last s (runs, called, inr (waits, held)) suits =
    rw (handle_lem (sent ec) _ s runs waits) (sent-Step last ec s runs called held)

Turn-length : (last : Bytes) (s : UdpServer) → Turn last s → length s.pending ≡ 1
Turn-length last s (runs, called, inl waits) = rw waits refl
Turn-length last s (runs, called, inr (waits, held)) = rw waits refl

handle_all-Served :
    (es : List Completed) (last : Bytes) (s : UdpServer)
    → Turn last s
    → AllSuit es s
    → Served last es s (handle_all es s)
unfolding handle_all datagrams replies
handle_all-Served [] last s turn suit =
    (Turn-length last s turn, turn.0, sym (append-nil _), sym (append-nil _))
handle_all-Served (e ∷ es) last s turn suit =
    let (turn', delivered, replied) = handle-Step e last s turn (suit.0) in
    let (one, runs, all_delivered, all_replied) =
      handle_all-Served es (last_of last e) (handle e s) turn' (suit.1) in
    (
      one,
      runs,
      all_delivered
          ∙ ap (λ d. d ++ datagrams es) delivered
          ∙ append_assoc s.delivered (datagram_of e) (datagrams es),
      all_replied
          ∙ ap (λ d. d ++ replies (last_of last e) es) replied
          ∙ append_assoc s.sent_back (reply_of last e) (replies (last_of last e) es),
    )

-- After a start with a callback, whatever the socket reports, as long as each report is of the
-- operation that waits: one operation waits and the loop runs; the callback has been called with
-- the datagrams that arrived whole and not empty, in order; and each reply that went out is the
-- datagram that came last.
pub udp_echoes :
    (peer : Peer) (es : List Completed)
    → AllSuit es (start_udp true (new_udp_server peer))
    → Served [] es (new_udp_server peer) (handle_all es (start_udp true (new_udp_server peer)))
unfolding start_udp new_udp_server
udp_echoes peer es suit =
    handle_all-Served es [] (start_udp true (new_udp_server peer)) (refl, refl, inl refl) suit
