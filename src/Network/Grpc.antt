-- ===== src/Network/Grpc.antt =====
-- GrpcClient::Send: the request that a PodMsg becomes. The remote call itself is gRPC's.
use paxosme.Prelude.{
  ℕ, ◌+◌, ◌*◌, ◌^◌, ◌≡◌, refl, Bool, true, false, Option, none, some, ◌==◌, if◌then◌else◌,
}
use paxosme.Message.{
  LogValue, MessageType, to_int, msg_none, msg_propose_broadcast, msg_accept_broadcast,
  msg_propose_ack, msg_accept_ack, msg_value_chosen, msg_shall_i_learn, msg_confirm_learn,
  msg_learner_value_send, msg_learner_value_sync, msg_sync_value_ack, msg_value_chosen_broadcast,
  msg_tell_instance_id, placeholder_new_value_committed,
}

-- PodMsg; `message_type` is an int.
pub record PodMsg : Type 0 where
  pub message_type : ℕ
  pub proposed_log_value : LogValue
  pub accepted_value : LogValue
  pub learned_value : LogValue
  pub chosen_value : LogValue
  pub promised_proposal_id : ℕ
  pub promised_node_id : ℕ
  pub instance_id : ℕ
  pub proposal_id : ℕ
  pub proposing_node_id : ℕ
  pub following_node_id : ℕ
  pub accepted_proposal_id : ℕ
  pub leader_instance_id : ℕ
  pub sender_id : ℕ
  pub rejected : Bool

-- PodMsgType, as the numbers of the enumerators that Send tests.
abbrev pub pod_msg_propose_ack : ℕ
pod_msg_propose_ack = 0x11 * 2 ^ 3

abbrev pub pod_msg_accept_ack : ℕ
pod_msg_accept_ack = 0x11 * 2 ^ 3 + 1

abbrev pub pod_msg_confirm_learn : ℕ
pod_msg_confirm_learn = 0x111 * 2 ^ 3 + 2

abbrev pub pod_msg_learner_value_send : ℕ
pod_msg_learner_value_send = 0x111 * 2 ^ 3 + 3

abbrev pub pod_msg_learner_value_sync : ℕ
pod_msg_learner_value_sync = 0x111 * 2 ^ 3 + 4

abbrev pub pod_msg_sync_value_ack : ℕ
pod_msg_sync_value_ack = 0x111 * 2 ^ 3 + 5

abbrev pub pod_msg_tell_instance_id : ℕ
pod_msg_tell_instance_id = 0x111 * 2 ^ 3 + 7

-- The requests that Send builds, with the fields that it sets.
pub data Request : Type 0 where
  propose_ack_request :
      (sender_id : ℕ) (is_rejected : Bool) (instance_id promised_proposal_id promised_node_id : ℕ)
      (accepted_log_value : LogValue)
      → Request
  accept_ack_request :
      (sender_id instance_id promised_node_id promised_proposal_id accepted_id : ℕ)
      (accepted_value : LogValue) (rejected : Bool)
      → Request
  learner_value_sync_request :
      (instance_id sender_id : ℕ) (value : LogValue) (proposing_node_id proposal_id : ℕ) → Request
  learner_value_send_request :
      (instance_id sender_id : ℕ) (value : LogValue) (proposing_node_id proposal_id : ℕ) → Request
  ack_sync_value_request : (instance_id sender_id : ℕ) → Request
  tell_instance_id_request : (follower_instance_id leader_instance_id sender_id : ℕ) → Request
  confirm_learn_request : (instance_id sender_id : ℕ) → Request

-- Send; `none` where no request is made and the result is false.
unfoldable pub grpc_send : PodMsg → Option Request
grpc_send m =
    if m.message_type == pod_msg_propose_ack
    then some (
        propose_ack_request m.sender_id m.rejected m.instance_id m.promised_proposal_id
          m.promised_node_id m.accepted_value)
    else if m.message_type == pod_msg_accept_ack
    then some (
        accept_ack_request m.sender_id m.instance_id m.promised_node_id m.promised_proposal_id
          m.accepted_proposal_id m.accepted_value m.rejected)
    else if m.message_type == pod_msg_learner_value_sync
    then some (
        learner_value_sync_request m.instance_id m.sender_id m.chosen_value m.proposing_node_id
          m.proposal_id)
    else if m.message_type == pod_msg_learner_value_send
    then some (
        learner_value_send_request m.instance_id m.sender_id m.chosen_value m.proposing_node_id
          m.proposal_id)
    else if m.message_type == pod_msg_sync_value_ack
    then some (ack_sync_value_request m.instance_id m.sender_id)
    else if m.message_type == pod_msg_tell_instance_id
    then some (tell_instance_id_request m.instance_id m.leader_instance_id m.sender_id)
    else if m.message_type == pod_msg_confirm_learn
    then some (confirm_learn_request m.instance_id m.sender_id)
    else none

-- The message types that GrpcClient has a case for.
unfoldable pub is_sent : MessageType → Bool
is_sent msg_propose_ack = true
is_sent msg_accept_ack = true
is_sent msg_confirm_learn = true
is_sent msg_learner_value_send = true
is_sent msg_learner_value_sync = true
is_sent msg_sync_value_ack = true
is_sent msg_tell_instance_id = true
is_sent _ = false

unfoldable pub sender_of : Request → ℕ
sender_of (propose_ack_request s _ _ _ _ _) = s
sender_of (accept_ack_request s _ _ _ _ _ _) = s
sender_of (learner_value_sync_request _ s _ _ _) = s
sender_of (learner_value_send_request _ s _ _ _) = s
sender_of (ack_sync_value_request _ s) = s
sender_of (tell_instance_id_request _ _ s) = s
sender_of (confirm_learn_request _ s) = s

unfoldable pub instance_of : Request → ℕ
instance_of (propose_ack_request _ _ i _ _ _) = i
instance_of (accept_ack_request _ i _ _ _ _ _) = i
instance_of (learner_value_sync_request i _ _ _ _) = i
instance_of (learner_value_send_request i _ _ _ _) = i
instance_of (ack_sync_value_request i _) = i
instance_of (tell_instance_id_request i _ _) = i
instance_of (confirm_learn_request i _) = i

abbrev pub Sends : PodMsg → Type 0
Sends m =
    (r : Request) × (grpc_send m ≡ some r)
    × (sender_of r ≡ m.sender_id)
    × (instance_of r ≡ m.instance_id)

-- A message of one of the seven types that have a case becomes a request with its sender and its
-- instance; of every other type, the broadcasts of the proposer and the learner among them, nothing
-- is sent.
pub grpc_send_types :
    (t : MessageType) (m : PodMsg)
    → m.message_type ≡ to_int t
    → (is_sent t ≡ true → Sends m) × (is_sent t ≡ false → grpc_send m ≡ none)
unfolding grpc_send is_sent sender_of instance_of to_int
grpc_send_types msg_propose_ack m e = (
  (λ _. (
    propose_ack_request m.sender_id m.rejected m.instance_id m.promised_proposal_id
        m.promised_node_id m.accepted_value,
    rw e refl,
    refl,
    refl,
  )),
  (λ f. cc),
)
grpc_send_types msg_accept_ack m e = (
  (λ _. (
    accept_ack_request m.sender_id m.instance_id m.promised_node_id m.promised_proposal_id
        m.accepted_proposal_id m.accepted_value m.rejected,
    rw e refl,
    refl,
    refl,
  )),
  (λ f. cc),
)
grpc_send_types msg_confirm_learn m e =
    ((λ _. (confirm_learn_request m.instance_id m.sender_id, rw e refl, refl, refl)), (λ f. cc))
grpc_send_types msg_learner_value_send m e = (
  (λ _. (
    learner_value_send_request m.instance_id m.sender_id m.chosen_value m.proposing_node_id
        m.proposal_id,
    rw e refl,
    refl,
    refl,
  )),
  (λ f. cc),
)
grpc_send_types msg_learner_value_sync m e = (
  (λ _. (
    learner_value_sync_request m.instance_id m.sender_id m.chosen_value m.proposing_node_id
        m.proposal_id,
    rw e refl,
    refl,
    refl,
  )),
  (λ f. cc),
)
grpc_send_types msg_sync_value_ack m e =
    ((λ _. (ack_sync_value_request m.instance_id m.sender_id, rw e refl, refl, refl)), (λ f. cc))
grpc_send_types msg_tell_instance_id m e = (
  (λ _. (
    tell_instance_id_request m.instance_id m.leader_instance_id m.sender_id,
    rw e refl,
    refl,
    refl,
  )),
  (λ f. cc),
)
grpc_send_types msg_none m e = ((λ f. cc), (λ _. rw e refl))
grpc_send_types msg_propose_broadcast m e = ((λ f. cc), (λ _. rw e refl))
grpc_send_types msg_accept_broadcast m e = ((λ f. cc), (λ _. rw e refl))
grpc_send_types msg_value_chosen m e = ((λ f. cc), (λ _. rw e refl))
grpc_send_types msg_shall_i_learn m e = ((λ f. cc), (λ _. rw e refl))
grpc_send_types msg_value_chosen_broadcast m e = ((λ f. cc), (λ _. rw e refl))
grpc_send_types placeholder_new_value_committed m e = ((λ f. cc), (λ _. rw e refl))
