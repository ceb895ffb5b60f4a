-- ===== src/Network/Server.antt =====
-- GrpcServer and its CallData: the objects that wait for a completion, and what a completion does.
-- gRPC gives every waiting object one completion, in an order of its own.
use paxosme.Prelude.{
  ℕ, zero, suc, ◌+◌, ◌≡◌, Bool, true, false, ◌&&◌, Option, none, some, List, [], ◌∷◌, ◌++◌,
  if◌then◌else◌, Bytes,
}

-- The kinds of calls that have an InitRequestState and that PrepareCallData registers.
pub data CallKind : Type 0 where
  propose propose_ack accept accept_ack new_value_chosen : CallKind

pub data CallStatus : Type 0 where
  dummy initialized served finish : CallStatus

pub record CallData : Type 0 where
  pub kind : CallKind
  pub status : CallStatus

-- The server; `in_loop` says whether HandleRpcs is under way, `has_callback` is false while
-- `msgCallback_` is an empty std::function, `answered` counts the calls that are over.
pub record GrpcServer : Type 0 where
  pub is_running : Bool
  pub in_loop : Bool
  pub has_callback : Bool
  pub waiting : List CallData
  pub received : List Bytes
  pub answered : ℕ

-- What the completion queue reports: the place of the object whose tag it is, whether it is ok, and
-- the request where the object has been waiting for one.
pub record Completion : Type 0 where
  pub place : ℕ
  pub is_ok : Bool
  pub request : Bytes

-- CreateStatusFunc
unfoldable pub create_status : CallData → GrpcServer → GrpcServer
create_status c s = record s { waiting = record c { status = initialized } ∷ s.waiting }

-- CallDataManager::New, whose object proceeds at once
unfoldable pub new_call : CallKind → GrpcServer → GrpcServer
unfolding create_status
new_call k s = create_status (record { kind = k; status = dummy }) s

-- HandleRequest, which hands the request to the callback, and what its caller does next; it is the
-- same for each of the five kinds. An empty std::function throws, which ends HandleRpcs.
unfoldable pub handle_request : Bytes → GrpcServer → (GrpcServer → GrpcServer) → GrpcServer
handle_request request s next =
    if s.has_callback
    then next (record s { received = s.received ++ request ∷ [] })
    else record s { in_loop = false }

-- ProcessStatusFunc
unfoldable pub process_status : CallData → Bytes → GrpcServer → GrpcServer
unfolding new_call handle_request
process_status c request s =
    handle_request request (new_call c.kind s)
      (λ handled. record handled { waiting = record c { status = served } ∷ handled.waiting })

-- FinishStatusFunc, after which Procceed frees the object
unfoldable pub finish_status : CallData → GrpcServer → GrpcServer
finish_status c s = record s { answered = s.answered + 1 }

-- Proceed on an object that has been taken from those that wait
unfoldable pub proceed : CallData → Bytes → GrpcServer → GrpcServer
unfolding create_status process_status finish_status
proceed c request s = elim c.status [
  | dummy ↦ create_status c s
  | initialized ↦ process_status c request s
  | served ↦ finish_status c s
  | finish ↦ s
]

unfoldable pub take_at : ℕ → List CallData → Option (CallData × List CallData)
take_at n [] = none
take_at zero (c ∷ cs) = some (c, cs)
take_at (suc n) (c ∷ cs) = elim (take_at n cs) [ none ↦ none | some (d, rest) ↦ some (d, c ∷ rest) ]

-- One round of HandleRpcs, if it is under way. A completion that is not ok is dropped, and its object
-- waits no more.
unfoldable pub handle_rpc : Completion → GrpcServer → GrpcServer
unfolding take_at proceed
handle_rpc e s =
    if s.in_loop
    then elim (take_at e.place s.waiting) [
      | none ↦ s
      | some (c, rest) ↦
          if e.is_ok
          then proceed c e.request (record s { waiting = rest })
          else record s { waiting = rest }
    ]
    else s

unfoldable pub handle_rpcs : List Completion → GrpcServer → GrpcServer
unfolding handle_rpc
handle_rpcs [] s = s
handle_rpcs (e ∷ es) s = handle_rpcs es (handle_rpc e s)

unfoldable pub prepare_call_data : GrpcServer → GrpcServer
unfolding new_call
prepare_call_data s =
    new_call new_value_chosen
      (new_call accept_ack (new_call accept (new_call propose_ack (new_call propose s))))

-- Start, as far as the thread that it begins prepares
unfoldable pub start_server : Bool → GrpcServer → GrpcServer
unfolding prepare_call_data
start_server has_callback s = record (prepare_call_data s) {
  is_running = true;
  in_loop = true;
  has_callback = has_callback;
}

-- Shutdown; the two queues are gRPC's.
unfoldable pub shutdown_server : GrpcServer → GrpcServer
shutdown_server s = if s.is_running then record s { is_running = false } else s

abbrev pub new_server : GrpcServer
new_server = record {
  is_running = false;
  in_loop = false;
  has_callback = false;
  waiting = [];
  received = [];
  answered = 0;
}

unfoldable pub same_kind : CallKind → CallKind → Bool
same_kind propose propose = true
same_kind propose_ack propose_ack = true
same_kind accept accept = true
same_kind accept_ack accept_ack = true
same_kind new_value_chosen new_value_chosen = true
same_kind _ _ = false

unfoldable pub is_initialized : CallStatus → Bool
is_initialized initialized = true
is_initialized _ = false

unfoldable pub is_served : CallStatus → Bool
is_served served = true
is_served _ = false

-- The objects that wait for a request of a kind.
unfoldable pub listening : CallKind → List CallData → ℕ
unfolding same_kind is_initialized
listening k [] = 0
listening k (c ∷ cs) =
    (if same_kind k c.kind && is_initialized c.status then 1 else 0) + listening k cs

-- The objects whose reply is under way.
unfoldable pub replying : List CallData → ℕ
unfolding is_served
replying [] = 0
replying (c ∷ cs) = (if is_served c.status then 1 else 0) + replying cs

abbrev pub IsOk : Completion → Type 0
IsOk e = e.is_ok ≡ true
