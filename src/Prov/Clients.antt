-- ===== src/Prov/Clients.antt =====
-- Clients in SubmitAndWait beside the proposer that calls Flush and WriteResult, interleaved in any
-- order, and what becomes of a value.
use paxosme.Prelude.{ℕ, ◌≡◌, some, All, ok, arith}
use paxosme.Message.{LogValue}
use paxosme.Prov.Defs.{
  ProposalProv, PendingNewValue, NewValueResult, value_none, submit, finish, flush, write_result,
}

-- One call, or one part of a call, by any thread.
pub data Step (p : ProposalProv) : ProposalProv → Type 0 where
  submits : (v : LogValue) → Step p (submit p v).0
  finishes :
      {p' : ProposalProv} (i : ℕ) (r : NewValueResult) → finish p i ≡ ok (some (p', r)) → Step p p'
  flushes : (instance_id : ℕ) → Step p (flush p instance_id).0
  writes :
      (v : LogValue) (instance_id : ℕ) (r : NewValueResult)
      → Step p (write_result p v instance_id r).0

pub data Reach (p : ProposalProv) : ProposalProv → Type 0 where
  here : Reach p p
  next : {q r : ProposalProv} → Reach p q → Step q r → Reach p r

-- A value in the queue as SubmitAndWait puts it there.
abbrev pub IsFresh : PendingNewValue → Type 0
IsFresh v = (v.instance_id ≡ 0) × (v.new_value_result ≡ value_none)

pub record IsStalled (first : ProposalProv) (p : ProposalProv) : Type 0 where
  pub fresh : All IsFresh p.queue.items
  pub stays : p.finish_index ≡ first.finish_index

flush_again :
    (p : ProposalProv) (a b : ℕ) (v : LogValue) → (flush p a).1 ≡ some v → flush p b ≡ (p, some v)
unfolding flush
flush_again p a b v e = ground arith

flush_keeps : (p : ProposalProv) (instance_id : ℕ) → (flush p instance_id).0 ≡ p
unfolding flush
flush_keeps p instance_id = ground arith

-- A value that Flush has handed out is not marked: Flush hands out the same value again, for any
-- other instance, and the state stays as it was.
pub flush_repeats :
    (p : ProposalProv) (a b : ℕ) {v : LogValue}
    → (flush p a).1 ≡ some v
    → flush (flush p a).0 b ≡ (p, some v)
flush_repeats p a b {v} flushed = rw (flush_keeps p a) (flush_again p a b v flushed)
