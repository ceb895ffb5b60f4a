-- ===== src/Network/Listening.antt =====
-- The gRPC server keeps listening: an invariant of the rounds of HandleRpcs.
use paxosme.Prelude.{
  ℕ, zero, suc, ◌+◌, ◌≡◌, refl, ap, sym, ◌∙◌, true, false, Bool-cases, inl, inr, ◌||◌, Option, none,
  some, List, [], ◌∷◌, if◌then◌else◌, Bytes, length, length-append, All, arith,
}
use paxosme.Network.Server.{
  CallKind, propose, propose_ack, accept, accept_ack, new_value_chosen, CallStatus, dummy,
  initialized, served, finish, CallData, GrpcServer, Completion, new_call, proceed, take_at,
  handle_rpc, handle_rpcs, prepare_call_data, start_server, new_server, same_kind, is_initialized,
  is_served, listening, replying, IsOk, create_status, process_status, handle_request,
  finish_status,
}

abbrev pub IsLive : CallData → Type 0
IsLive c = (is_initialized c.status || is_served c.status) ≡ true

-- One object listens for each kind, an object that waits is initialized or served, and a request that
-- has been received is answered or being answered; the loop goes on, with a callback.
pub record IsListening (s : GrpcServer) : Type 0 where
  pub one_each : (k : CallKind) → listening k s.waiting ≡ 1
  pub live : All IsLive s.waiting
  pub called : s.has_callback ≡ true
  pub runs : s.in_loop ≡ true
  pub accounted : length s.received ≡ replying s.waiting + s.answered

-- Taking an object away from those that wait.
record Taken (cs : List CallData) (c : CallData) (rest : List CallData) : Type 0 where
  listens : (k : CallKind) → listening k cs ≡ listening k (c ∷ []) + listening k rest
  replies : replying cs ≡ replying (c ∷ []) + replying rest
  lives : All IsLive cs → IsLive c × All IsLive rest

-- What take_at does past an object, given what it has found behind it.
unfoldable put_back :
    CallData → Option (CallData × List CallData) → Option (CallData × List CallData)
put_back b none = none
put_back b (some (d, r)) = some (d, b ∷ r)

take_at-suc :
    (n : ℕ) (b : CallData) (cs : List CallData)
    → take_at (suc n) (b ∷ cs) ≡ put_back b (take_at n cs)
unfolding take_at put_back
take_at-suc n b cs =
    elim (take_at n cs)
      as (λ t. (elim t [ none ↦ none | some (d, rest) ↦ some (d, b ∷ rest) ]) ≡ put_back b t) [
        | none ↦ refl
        | some (d, rest) ↦ refl
      ]

put_back-Taken :
    (b : CallData) (cs : List CallData) (c : CallData) (rest : List CallData)
    (t : Option (CallData × List CallData))
    → ((d : CallData) (r : List CallData) → t ≡ some (d, r) → Taken cs d r)
    → put_back b t ≡ some (c, rest)
    → Taken (b ∷ cs) c rest
unfolding put_back listening replying
put_back-Taken b cs c rest none taken e = cc
put_back-Taken b cs c rest (some (d, r)) taken e =
    let c_is : d ≡ c = cc in
    let rest_is : b ∷ r ≡ rest = cc in
    let t = taken d r refl in
    rw (← c_is, ← rest_is)
      (record {
        listens = λ k. omega (arith, t.listens k);
        replies = omega (arith, t.replies);
        lives = λ (live, all). ((t.lives all).0, (live, (t.lives all).1));
      })

take_at-Taken :
    (n : ℕ) (cs : List CallData) (c : CallData) (rest : List CallData)
    → take_at n cs ≡ some (c, rest)
    → Taken cs c rest
unfolding take_at listening replying
take_at-Taken n [] c rest e = cc
take_at-Taken zero (b ∷ cs) c rest e =
    let c_is : b ≡ c = cc in
    let rest_is : cs ≡ rest = cc in
    rw (← c_is, ← rest_is)
      (record { listens = λ k. omega arith; replies = omega arith; lives = λ all. all })
take_at-Taken (suc n) (b ∷ cs) c rest e =
    put_back-Taken b cs c rest (take_at n cs) (λ d r found. take_at-Taken n cs d r found)
      (sym (take_at-suc n b cs) ∙ e)

-- A served object does not listen.
served_listens :
    (j k : CallKind) (rest : List CallData)
    → listening j (record { kind = k; status = served } ∷ rest) ≡ listening j rest
unfolding listening is_initialized
served_listens j k rest = elim (Bool-cases (same_kind j k)) [
  | inl same ↦ rw same (omega arith)
  | inr other ↦ rw other (omega arith)
]

-- An object that has been taken away proceeds.
proceed-IsListening :
    (k : CallKind) (st : CallStatus) (request : Bytes) (s : GrpcServer) (rest : List CallData)
    → IsListening s
    → Taken s.waiting (record { kind = k; status = st }) rest
    → IsListening (proceed (record { kind = k; status = st }) request (record s { waiting = rest }))
unfolding proceed create_status process_status handle_request new_call finish_status listening
    replying is_initialized is_served
proceed-IsListening k dummy request s rest ok_s t = absurd (cc ((t.lives ok_s.live).0))
proceed-IsListening k initialized request s rest ok_s t = rw ok_s.called (record {
  called = refl;
  runs = ok_s.runs;
  one_each = λ j. omega (
    arith,
    t.listens j,
    ok_s.one_each j,
    served_listens j k (record { kind = k; status = initialized } ∷ rest),
  );
  live = (refl, (refl, (t.lives ok_s.live).1));
  accounted = omega (arith, t.replies, ok_s.accounted, length-append s.received (request ∷ []));
})
proceed-IsListening k served request s rest ok_s t = record {
  called = ok_s.called;
  runs = ok_s.runs;
  one_each = λ j.
      omega (arith, t.listens j, ok_s.one_each j, served_listens j k [], served_listens j k rest);
  live = (t.lives ok_s.live).1;
  accounted = omega (arith, t.replies, ok_s.accounted);
}
proceed-IsListening k finish request s rest ok_s t = absurd (cc ((t.lives ok_s.live).0))

handle_rpc-IsListening :
    (e : Completion) (s : GrpcServer) → IsOk e → IsListening s → IsListening (handle_rpc e s)
unfolding handle_rpc
handle_rpc-IsListening e s is_ok ok_s = rw ok_s.runs (
    elim (take_at e.place s.waiting)
        as (λ t.
          take_at e.place s.waiting ≡ t
          → IsListening (elim t [
            | none ↦ s
            | some (c, rest) ↦
                if e.is_ok
                then proceed c e.request (record s { waiting = rest })
                else record s { waiting = rest }
          ])) [
            | none ↦ λ _. ok_s
            | some (c, rest) ↦ λ found. rw is_ok (
                proceed-IsListening c.kind c.status e.request s rest ok_s
                  (take_at-Taken e.place s.waiting c rest found))
          ]
      refl)

handle_rpcs-IsListening :
    (es : List Completion) (s : GrpcServer)
    → All IsOk es
    → IsListening s
    → IsListening (handle_rpcs es s)
unfolding handle_rpcs
handle_rpcs-IsListening [] s all ok_s = ok_s
handle_rpcs-IsListening (e ∷ es) s (is_ok, all) ok_s =
    handle_rpcs-IsListening es (handle_rpc e s) all (handle_rpc-IsListening e s is_ok ok_s)

started_listens : (k : CallKind) → listening k (start_server true new_server).waiting ≡ 1
unfolding start_server prepare_call_data new_call create_status listening same_kind is_initialized
started_listens propose = refl
started_listens propose_ack = refl
started_listens accept = refl
started_listens accept_ack = refl
started_listens new_value_chosen = refl

start_server-IsListening : IsListening (start_server true new_server)
unfolding start_server prepare_call_data new_call create_status listening replying same_kind
    is_initialized is_served
start_server-IsListening = record {
  called = refl;
  runs = refl;
  one_each = started_listens;
  live = (refl, (refl, (refl, (refl, (refl, tt)))));
  accounted = refl;
}

listens_one : (k : CallKind) → listening k (record { kind = k; status = initialized } ∷ []) ≡ 1
unfolding listening same_kind is_initialized
listens_one propose = refl
listens_one propose_ack = refl
listens_one accept = refl
listens_one accept_ack = refl
listens_one new_value_chosen = refl

-- After a start with a callback, whatever completions arrive and in whatever order, as long as each is ok: one object
-- listens for each of the five kinds of calls, every object that waits is initialized or served, and
-- the requests received are those being answered and those that are over.
pub server_listens :
    (es : List Completion)
    → All IsOk es
    → IsListening (handle_rpcs es (start_server true new_server))
server_listens es all =
    handle_rpcs-IsListening es (start_server true new_server) all start_server-IsListening

-- A completion that is not ok for an object that listens ends the listening for its kind: what waits
-- afterwards has one object less for it, and no request is received.
pub failed_completion :
    (e : Completion) (k : CallKind) (s : GrpcServer) (rest : List CallData)
    → IsListening s
    → e.is_ok ≡ false
    → take_at e.place s.waiting ≡ some (record { kind = k; status = initialized }, rest)
    → (listening k (handle_rpc e s).waiting ≡ 0) × ((handle_rpc e s).received ≡ s.received)
unfolding handle_rpc listening same_kind is_initialized
failed_completion e k s rest ok_s failed found =
    let t =
      take_at-Taken e.place s.waiting (record { kind = k; status = initialized }) rest found in
    let result : handle_rpc e s ≡ record s { waiting = rest } =
      rw (handle_rpc, found, failed)
        (ap (λ b. if b then record s { waiting = rest } else s) ok_s.runs) in
    rw result (omega (arith, ok_s.one_each k, t.listens k, listens_one k), refl)
