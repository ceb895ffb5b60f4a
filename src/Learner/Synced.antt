-- ===== src/Learner/Synced.antt =====
-- What the sending thread sends, and where it cannot go on.
use mathlib.Core.List.{append_assoc}
use paxosme.Prelude.{
  ℕ, zero, suc, ◌+◌, ◌≤◌, ◌<◌, ◌≡◌, inl, inr, refl, sym, ap, ◌∙◌, true, List, [], ◌∷◌, ◌++◌, length,
  ltb, Bool-cases, arith, eq→==,
}
use paxosme.Message.{node_dummy}
use paxosme.State.Learner.{prepared, stale, sending}
use paxosme.Store.{LogStorage, EntryCodec, read_log}
use paxosme.Node.{Node, Sent, send, read_state}
use paxosme.Learner.Lead.{send_learned_value, wait_for_ready, clear_sending_state, is_prepared}
use paxosme.Learner.Learning.{sync_message}
use paxosme.Learner.Waits.{Kept, waited_node, await_acks-Kept}
use paxosme.Learner.Sending.{
  Wake, Seen, goes_on, Waited, acked, too_slow, waits_on, Sending, finished, gave_up, blocked,
  await_acks, after_wait, cleared, send_loop, send_learned_values, sending_round,
}

module _ {S : Type 0} where
  abbrev pub node_of : Sending S → Node S
  node_of (finished n) = n
  node_of (gave_up n) = n
  node_of (blocked n) = n
  node_of (goes_on n) = n

  -- The current instance at the first `k` tests of the loop lies past the instance to send, which is
  -- `begin` at the first.
  abbrev pub Continues : List (Seen S) → ℕ → ℕ → Type 0
  Continues seen begin zero = Unit {0}
  Continues [] begin (suc k) = ⊥
  Continues (r ∷ rs) begin (suc k) = (begin < r.instance_id) × Continues rs (begin + 1) k

  -- At the test after the first `k` it does not.
  abbrev pub Stops : List (Seen S) → ℕ → ℕ → Type 0
  Stops [] begin k = ⊥
  Stops (r ∷ rs) begin zero = r.instance_id ≤ begin
  Stops (r ∷ rs) begin (suc k) = Stops rs (begin + 1) k

  -- How the loop ends after `k` values: it finishes just where its condition fails, and goes on just
  -- where all tests have held.
  abbrev pub EndsAfter : List (Seen S) → ℕ → ℕ → Sending S → Type 0
  EndsAfter seen begin k (finished n) = Stops seen begin k
  EndsAfter seen begin k (goes_on n) = k ≡ length seen
  EndsAfter seen begin k (gave_up n) = 0 < k
  EndsAfter seen begin k (blocked n) = 0 < k

module _ {S : Type 0} ⦃db : LogStorage S⦄ ⦃codec : EntryCodec⦄ where
  -- The values of `k` instances from `begin` on, the newest first, each as the log has it when its
  -- turn comes.
  unfoldable pub synced : List (Seen S) → ℕ → ℕ → ℕ → List Sent
  synced seen receiver begin zero = []
  synced [] receiver begin (suc k) = []
  synced (r ∷ rs) receiver begin (suc k) =
      synced rs receiver (begin + 1) k
      ++ send receiver (sync_message (read_log begin r.store) begin receiver) ∷ []

  -- What has been sent: the first `count` values, and why no more.
  pub record Sends (seen : List (Seen S)) (before : List Sent) (receiver begin : ℕ) (r : Sending S)
      : Type 0 where
    pub count : ℕ
    pub continues : Continues seen begin count
    pub ends : EndsAfter seen begin count r
    pub sent : (node_of r).sent ≡ synced seen receiver begin count ++ before

  later_ends :
      (r : Seen S) (rs : List (Seen S)) (begin k : ℕ) (s : Sending S)
      → EndsAfter rs (begin + 1) k s
      → EndsAfter (r ∷ rs) begin (suc k) s
  later_ends r rs begin k (finished n) e = e
  later_ends r rs begin k (goes_on n) e = omega (arith, e)
  later_ends r rs begin k (gave_up n) e = omega arith
  later_ends r rs begin k (blocked n) e = omega arith

  -- One value has been sent, and the wait after it is over; `next` is what the later rounds do.
  after_wait-Sends :
      (r : Seen S) (rs : List (Seen S)) (before : List Sent) (n : Node S) (receiver begin : ℕ)
      (w : Waited S) (next : List Wake → Node S → Sending S)
      → begin < r.instance_id
      → n.sent ≡ send receiver (sync_message (read_log begin r.store) begin receiver) ∷ before
      → Kept n (waited_node w)
      → ((ws : List Wake) (m : Node S) → Sends rs m.sent receiver (begin + 1) (next ws m))
      → Sends (r ∷ rs) before receiver begin (after_wait w next)
  unfolding after_wait synced
  after_wait-Sends r rs before n receiver begin (acked ws m) next below sent_one kept later =
      let rest = later ws m in
      record {
        count = suc rest.count;
        continues = (below, rest.continues);
        ends = later_ends r rs begin rest.count (next ws m) rest.ends;
        sent =
            rest.sent
            ∙ ap (λ l. synced rs receiver (begin + 1) rest.count ++ l) (kept.sent ∙ sent_one)
            ∙ sym (append_assoc (synced rs receiver (begin + 1) rest.count) _ before);
      }
  after_wait-Sends r rs before n receiver begin (too_slow m) next below sent_one kept later =
      record { count = 1; continues = (below, tt); ends = omega arith; sent = kept.sent ∙ sent_one }
  after_wait-Sends r rs before n receiver begin (waits_on m) next below sent_one kept later =
      record { count = 1; continues = (below, tt); ends = omega arith; sent = kept.sent ∙ sent_one }

  send_loop-Sends :
      (t : ℕ) (seen : List (Seen S)) (to_send receiver : ℕ) (ws : List Wake) (n : Node S)
      → Sends seen n.sent receiver to_send (send_loop t seen to_send receiver ws n)
  unfolding send_loop synced
  send_loop-Sends t [] to_send receiver ws n = record {
    count = 0;
    continues = tt;
    ends = refl;
    sent = refl;
  }
  send_loop-Sends t (r ∷ rs) to_send receiver ws n =
      let now = record n { instance_id = r.instance_id; store = r.store } in
      elim (Bool-cases (ltb to_send r.instance_id)) [
        | inl below ↦
            let n' = send_learned_value to_send receiver true now in
            rw below (
              after_wait-Sends r rs n.sent n' receiver to_send (await_acks t to_send ws n') _
                (ground arith) (unfold send_learned_value read_state in refl)
                (await_acks-Kept t to_send ws n' n'
                  (record { sent = refl; store = refl; instance_id = refl }))
                (λ ws' m. send_loop-Sends t rs (to_send + 1) receiver ws' m))
        | inr past ↦
            rw past (record { count = 0; continues = tt; ends = ground arith; sent = refl })
      ]

  cleared-Sends :
      (seen : List (Seen S)) (before : List Sent) (receiver begin : ℕ) (r : Sending S)
      → Sends seen before receiver begin r
      → Sends seen before receiver begin (cleared r)
  unfolding cleared clear_sending_state
  cleared-Sends seen before receiver begin (finished m) s = record {
    count = s.count;
    continues = s.continues;
    ends = s.ends;
    sent = s.sent;
  }
  cleared-Sends seen before receiver begin (gave_up m) s = record {
    count = s.count;
    continues = s.continues;
    ends = s.ends;
    sent = s.sent;
  }
  cleared-Sends seen before receiver begin (blocked m) s = s
  cleared-Sends seen before receiver begin (goes_on m) s = s

  -- The job is over, unless the thread is still at it.
  abbrev pub IsOver : Sending S → Type 0
  IsOver (finished m) = (m.learner.job_status ≡ stale) × (m.learner.receiver ≡ node_dummy)
  IsOver (gave_up m) = (m.learner.job_status ≡ stale) × (m.learner.receiver ≡ node_dummy)
  IsOver (blocked m) = Unit {0}
  IsOver (goes_on m) = Unit {0}

  cleared-IsOver : (r : Sending S) → IsOver (cleared r)
  unfolding cleared clear_sending_state
  cleared-IsOver (finished m) = (refl, refl)
  cleared-IsOver (gave_up m) = (refl, refl)
  cleared-IsOver (blocked m) = tt
  cleared-IsOver (goes_on m) = tt

  send_learned_values-Sends :
      (t : ℕ) (seen : List (Seen S)) (begin receiver : ℕ) (ws : List Wake) (n : Node S)
      → n.learner.receiver ≡ receiver
      → Sends seen n.sent receiver begin (send_learned_values t seen begin receiver ws n)
  unfolding send_learned_values
  send_learned_values-Sends t seen begin receiver ws n same =
      rw (eq→== n.learner.receiver receiver same) (send_loop-Sends t seen begin receiver ws n)

  -- Whatever acks come in and however late, and however the instance and the log change meanwhile: a
  -- round of the sending loop with a prepared job sends its receiver the values of the instances
  -- from the job's first one on, each once, in order and as the log has it when its turn comes, each
  -- while it is below the current instance; SendLearnedValues finishes just where the next one is
  -- not. Unless the thread is still at it, the job is over afterwards.
  pub sending_round-Sends :
      (t : ℕ) (seen : List (Seen S)) (ws : List Wake) (n : Node S)
      → n.learner.job_status ≡ prepared
      → Sends seen n.sent n.learner.receiver n.learner.begin_instance_id (sending_round t seen ws n)
        × IsOver (sending_round t seen ws n)
  unfolding sending_round
  sending_round-Sends t seen ws n is_ready =
      let ready : Node S = record n { learner = record (n.learner) { job_status = sending } } in
      let waited : wait_for_ready n ≡ ready = unfold wait_for_ready is_prepared in simp is_ready in
      let begin = n.learner.begin_instance_id in
      let loop = send_learned_values t seen begin n.learner.receiver ws ready in
      let round : sending_round t seen ws n ≡ cleared loop =
        ap
          (λ (m : Node S).
            cleared
              (send_learned_values t seen m.learner.begin_instance_id m.learner.receiver ws m))
          waited in
      rw round (
        cleared-Sends seen n.sent n.learner.receiver begin loop
            (send_learned_values-Sends t seen begin n.learner.receiver ws ready refl),
        cleared-IsOver loop,
      )
