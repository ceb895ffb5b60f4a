-- ===== src/Network/Calls.antt =====
-- GrpcClient: the remote call that a request prepares, and AsyncCall, which waits for its completion.
use paxosme.Prelude.{
  ◌≡◌, ◌≢◌, refl, Bool, true, false, ◌&&◌, none, some, Run, ok, fault, assertion_failed,
  if◌then◌else◌, inl, inr, Bool-cases, ◌⊎◌, ap,
}
use paxosme.Network.Grpc.{
  PodMsg, Request, propose_ack_request, accept_ack_request, learner_value_sync_request,
  learner_value_send_request, ack_sync_value_request, tell_instance_id_request,
  confirm_learn_request, grpc_send,
}
use paxosme.Network.Server.{
  CallKind, propose, propose_ack, accept, accept_ack, new_value_chosen, GrpcServer, listening,
}
use paxosme.Network.Listening.{IsListening}

-- The messages of paxosme.proto that are requests, and its remote procedures.
pub data RequestType : Type 0 where
  propose_t propose_ack_t accept_t accept_ack_t new_value_chosen_t shall_i_learn_t : RequestType
  learner_value_sync_t ack_sync_value_t learner_value_send_t tell_instance_id_t : RequestType
  confirm_learn_t : RequestType

pub data Rpc : Type 0 where
  rpc_propose rpc_propose_ack rpc_accept rpc_accept_ack rpc_new_value_chosen : Rpc
  rpc_shall_i_learn rpc_learner_value_sync rpc_ack_sync_value rpc_learner_value_send : Rpc
  rpc_tell_instance_id rpc_confirm_learn : Rpc

-- PrepareRequest, which has one body for each type
unfoldable pub prepare_request : RequestType → Rpc
prepare_request propose_t = rpc_propose
prepare_request propose_ack_t = rpc_propose_ack
prepare_request accept_t = rpc_accept
prepare_request accept_ack_t = rpc_accept_ack
prepare_request new_value_chosen_t = rpc_new_value_chosen
prepare_request shall_i_learn_t = rpc_shall_i_learn
prepare_request learner_value_sync_t = rpc_learner_value_sync
prepare_request ack_sync_value_t = rpc_ack_sync_value
prepare_request learner_value_send_t = rpc_learner_value_send
prepare_request tell_instance_id_t = rpc_tell_instance_id
prepare_request confirm_learn_t = rpc_confirm_learn

unfoldable pub request_type : Request → RequestType
request_type (propose_ack_request _ _ _ _ _ _) = propose_ack_t
request_type (accept_ack_request _ _ _ _ _ _ _) = accept_ack_t
request_type (learner_value_sync_request _ _ _ _ _) = learner_value_sync_t
request_type (learner_value_send_request _ _ _ _ _) = learner_value_send_t
request_type (ack_sync_value_request _ _) = ack_sync_value_t
request_type (tell_instance_id_request _ _ _) = tell_instance_id_t
request_type (confirm_learn_request _ _) = confirm_learn_t

-- InitRequestState: the procedure that an object of a kind asks for.
unfoldable pub init_request_state : CallKind → Rpc
init_request_state propose = rpc_propose
init_request_state propose_ack = rpc_propose_ack
init_request_state accept = rpc_accept
init_request_state accept_ack = rpc_accept_ack
init_request_state new_value_chosen = rpc_new_value_chosen

-- The reply of every procedure is one Boolean.
pub record Reply : Type 0 where
  pub ack : Bool

-- What the completion queue gives back for a call: whether Next has an event, its `ok`, whether its
-- tag is the call's, and the call's status and reply.
pub record CallOutcome : Type 0 where
  pub has_next : Bool
  pub ret : Bool
  pub own_tag : Bool
  pub status_ok : Bool
  pub reply : Reply

-- AsyncCall: the result, and the caller's response.
unfoldable pub async_call : CallOutcome → Reply → Run (Bool × Reply)
async_call o response =
    if o.has_next
    then (if o.ret && o.own_tag
        then ok (if o.status_ok then (true, o.reply) else (false, response))
        else fault assertion_failed)
    else fault assertion_failed

-- Send with a request, whose response starts as the default
unfoldable pub send_request : (Rpc → CallOutcome) → Request → Run Bool
unfolding async_call prepare_request request_type
send_request outcome r =
    elim (async_call (outcome (prepare_request (request_type r))) (record { ack = false })) [
      | ok done ↦ ok done.0
      | fault f ↦ fault f
    ]

-- GrpcClient::Send with its result
unfoldable pub client_result : (Rpc → CallOutcome) → PodMsg → Run Bool
unfolding grpc_send send_request
client_result outcome m = elim (grpc_send m) [ none ↦ ok false | some r ↦ send_request outcome r ]

-- A completion as gRPC documents it for a call that was started: there is one, it is ok, and its tag
-- is the one that was given.
pub record IsCompleted (o : CallOutcome) : Type 0 where
  pub has_next : o.has_next ≡ true
  pub ret : o.ret ≡ true
  pub own_tag : o.own_tag ≡ true

async_call-status :
    (o : CallOutcome) (response : Reply)
    → IsCompleted o
    → async_call o response ≡ ok (if o.status_ok then (true, o.reply) else (false, response))
unfolding async_call
async_call-status o response c = simp (c.has_next, c.ret, c.own_tag)

send_request-status :
    (outcome : Rpc → CallOutcome) (r : Request)
    → IsCompleted (outcome (prepare_request (request_type r)))
    → send_request outcome r ≡ ok (outcome (prepare_request (request_type r))).status_ok
unfolding send_request prepare_request
send_request-status outcome r c =
    let o = outcome (prepare_request (request_type r)) in
    rw (send_request, async_call-status o (record { ack = false }) c)
      (elim (Bool-cases o.status_ok) [ inl up ↦ rw up refl | inr down ↦ rw down refl ])

-- Whatever is sent, Send ends with a result: false where no request is made, and otherwise whether
-- the status of its call is OK.
pub client_result_status :
    (outcome : Rpc → CallOutcome) (m : PodMsg)
    → ((p : Rpc) → IsCompleted (outcome p))
    → ((grpc_send m ≡ none) × (client_result outcome m ≡ ok false))
      ⊎ ((r : Request) × (grpc_send m ≡ some r)
          × (client_result outcome m ≡ ok (outcome (prepare_request (request_type r))).status_ok))
unfolding client_result
client_result_status outcome m c =
    elim (grpc_send m)
      as (λ g.
        ((g ≡ none) × ((elim g [ none ↦ ok false | some r ↦ send_request outcome r ]) ≡ ok false))
        ⊎ ((r : Request) × (g ≡ some r)
            × ((elim g [ none ↦ ok false | some r' ↦ send_request outcome r' ])
                ≡ ok (outcome (prepare_request (request_type r))).status_ok))) [
                  | none ↦ inl (refl, refl)
                  | some r ↦ inr (
                    r,
                    refl,
                    send_request-status outcome r (c (prepare_request (request_type r))),
                  )
                ]

unfoldable pub is_answered : Request → Bool
is_answered (propose_ack_request _ _ _ _ _ _) = true
is_answered (accept_ack_request _ _ _ _ _ _ _) = true
is_answered _ = false

is_listened : Rpc → Bool
is_listened rpc_propose = true
is_listened rpc_propose_ack = true
is_listened rpc_accept = true
is_listened rpc_accept_ack = true
is_listened rpc_new_value_chosen = true
is_listened _ = false

init_request_state-listened : (k : CallKind) → is_listened (init_request_state k) ≡ true
unfolding is_listened init_request_state
init_request_state-listened propose = refl
init_request_state-listened propose_ack = refl
init_request_state-listened accept = refl
init_request_state-listened accept_ack = refl
init_request_state-listened new_value_chosen = refl

unlistened : (p : Rpc) → is_listened p ≡ false → (k : CallKind) → init_request_state k ≢ p
unlistened p no_object k e = let yes_object = init_request_state-listened k in cc (ap is_listened e)

-- A server that listens has an object for the acknowledgements of acceptors, and none of its objects
-- asks for any other call that a client makes.
pub answered_requests :
    (r : Request) (s : GrpcServer)
    → IsListening s
    → ((k : CallKind) × (init_request_state k ≡ prepare_request (request_type r))
        × (listening k s.waiting ≡ 1)
        × (is_answered r ≡ true))
      ⊎ (((k : CallKind) → init_request_state k ≢ prepare_request (request_type r))
          × (is_answered r ≡ false))
unfolding init_request_state prepare_request request_type is_answered is_listened
answered_requests (propose_ack_request _ _ _ _ _ _) s l =
    inl (propose_ack, refl, l.one_each propose_ack, refl)
answered_requests (accept_ack_request _ _ _ _ _ _ _) s l =
    inl (accept_ack, refl, l.one_each accept_ack, refl)
answered_requests (learner_value_sync_request _ _ _ _ _) s l = inr (unlistened _ refl, refl)
answered_requests (learner_value_send_request _ _ _ _ _) s l = inr (unlistened _ refl, refl)
answered_requests (ack_sync_value_request _ _) s l = inr (unlistened _ refl, refl)
answered_requests (tell_instance_id_request _ _ _) s l = inr (unlistened _ refl, refl)
answered_requests (confirm_learn_request _ _) s l = inr (unlistened _ refl, refl)
