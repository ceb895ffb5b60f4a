-- ===== src/Prov/Defs.antt =====
-- ProposalProv. Its methods hold `lock_` throughout, but for the wait of SubmitAndWait, which is
-- split there: `submit` is the part before the wait, `finish` the part after it.
use paxosme.Prelude.{
  ℕ, ◌+◌, ◌%◌, Bool, true, false, [], ◌∷◌, Option, none, some, ◌==◌, bytes_eq, if◌then◌else◌, Run,
  ok, ◌>>=◌,
}
use paxosme.Message.{u64_mod, LogValue, PaxMessage, new_message, placeholder_new_value_committed}
use paxosme.Queue.{SafeQueue, try_add, pop_n, front}

pub data NewValueResult : Type 0 where
  value_none value_timeout value_accepted : NewValueResult
  value_accepted_win value_accepted_lose too_many_values : NewValueResult

-- `logValue` points to the submitter's string, which stays while the submitter waits.
pub record PendingNewValue : Type 0 where
  pub log_value : LogValue
  pub index : ℕ
  pub new_value_result : NewValueResult
  pub instance_id : ℕ

pub record ProposalProv : Type 0 where
  pub timeout_ms : ℕ
  pub instance_id : ℕ
  pub index : ℕ
  pub finish_index : ℕ
  pub queue : SafeQueue PendingNewValue

-- SubmitAndWait up to its wait: the index that the submitter waits for, or `none` where it returns
-- kTOO_MANY_VALUES, and the message for the controller's AddMessage.
unfoldable pub submit : ProposalProv → LogValue → ProposalProv × Option ℕ × Option PaxMessage
submit p value =
    let added = try_add p.queue (record {
      log_value = value;
      index = p.index;
      new_value_result = value_none;
      instance_id = 0;
    }) in
    let p' = record p { index = (p.index + 1) % u64_mod; queue = added.0 } in
    if added.1
    then (p', some p.index, some (new_message 0 placeholder_new_value_committed))
    else (p', none, none)

-- SubmitAndWait from the end of its wait for `finish_index_ == i`; `none` while it still waits. The
-- `delete` of the string that the submitter has passed is left out.
unfoldable pub finish : ProposalProv → ℕ → Run (Option (ProposalProv × NewValueResult))
finish p i =
    if p.finish_index == i
    then (do
      pending ← front p.queue
      rest ← pop_n 1 p.queue.items
      ok (
          some (
            record p { queue = record { items = rest; limit = p.queue.limit } },
            pending.new_value_result,
          )))
    else ok none

-- Flush; `none` is the result `false`. The source sets `instanceId` in `pendingNewValue`, its own
-- copy of the front, and so nothing that outlives the call.
unfoldable pub flush : ProposalProv → ℕ → ProposalProv × Option LogValue
flush p instance_id = elim p.queue.items [
  | [] ↦ (p, none)
  | pending ∷ rest ↦ if pending.instance_id == 0 then (p, some pending.log_value) else (p, none)
]

-- What WriteResult records for the value at the front.
unfoldable pub written : LogValue → LogValue → NewValueResult → NewValueResult
written mine chosen value_accepted =
    if bytes_eq mine chosen then value_accepted_win else value_accepted_lose
written mine chosen result = result

-- WriteResult. The result goes into a copy of the front again, which is the second component here,
-- and only `finish_index_` changes.
unfoldable pub write_result :
    ProposalProv → LogValue → ℕ → NewValueResult → ProposalProv × Option PendingNewValue × Bool
unfolding written
write_result p log_value instance_id result = elim p.queue.items [
  | [] ↦ (p, none, false)
  | pending ∷ rest ↦ if pending.instance_id == 0 then (p, none, false) else (
    record p { finish_index = pending.index },
    some (record pending { new_value_result = written pending.log_value log_value result }),
    true,
  )
]
