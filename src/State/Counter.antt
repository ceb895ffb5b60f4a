-- ===== src/State/Counter.antt =====
-- ProposalCounter of core/include/proposer_pax.hpp and core/proposal_counter.cpp. A std::set of node
-- ids is a list without repetitions. `vote_count_` is an int32_t that counts at most three votes for
-- each node.
use paxosme.Prelude.{
  ℕ, ◌+◌, ◌≡◌, Bool, true, false, List, [], ◌∷◌, leb, length, if◌then◌else◌, arith,
}
use paxosme.Options.{PaxosOptions, contains, get_majority_count}

pub record ProposalCounter : Type 0 where
  pub vote_count : ℕ
  pub approvals : List ℕ
  pub promises : List ℕ
  pub rejections : List ℕ

unfoldable pub new_counter : ProposalCounter
new_counter = record { vote_count = 0; approvals = []; promises = []; rejections = [] }

unfoldable pub is_majority_accepted : PaxosOptions → ProposalCounter → Bool
is_majority_accepted o c = leb (get_majority_count o) (length c.approvals)

unfoldable pub is_majority_promised : PaxosOptions → ProposalCounter → Bool
is_majority_promised o c = leb (get_majority_count o) (length c.promises)

unfoldable pub is_majority_rejected : PaxosOptions → ProposalCounter → Bool
is_majority_rejected o c = leb (get_majority_count o) (length c.rejections)

unfoldable pub is_still_pending : PaxosOptions → ProposalCounter → Bool
is_still_pending o c = leb o.member_count c.vote_count

unfoldable pub add_accept : ℕ → ProposalCounter → ProposalCounter × Bool
add_accept node_id c =
    if contains c.approvals node_id
    then (c, false)
    else (record c { approvals = node_id ∷ c.approvals; vote_count = c.vote_count + 1 }, true)

unfoldable pub add_rejection : ℕ → ProposalCounter → ProposalCounter × Bool
add_rejection node_id c =
    if contains c.rejections node_id
    then (c, false)
    else (record c { rejections = node_id ∷ c.rejections; vote_count = c.vote_count + 1 }, true)

unfoldable pub add_promise : ℕ → ProposalCounter → ProposalCounter × Bool
add_promise node_id c =
    if contains c.promises node_id
    then (c, false)
    else (record c { promises = node_id ∷ c.promises; vote_count = c.vote_count + 1 }, true)

unfoldable pub reset : ProposalCounter → ProposalCounter
reset c = record { vote_count = 0; approvals = []; promises = []; rejections = [] }

unfoldable pub someone_reject : ProposalCounter → Bool
someone_reject c = elim c.rejections [ [] ↦ false | n ∷ ns ↦ true ]

-- No node is counted twice in a set, and the vote count is the number of entries of the three sets.
abbrev pub NoRepeats : List ℕ → Type 0
NoRepeats [] = Unit {0}
NoRepeats (n ∷ ns) = (contains ns n ≡ false) × NoRepeats ns

pub record IsValid (c : ProposalCounter) : Type 0 where
  pub counted : c.vote_count ≡ length c.approvals + length c.promises + length c.rejections
  pub approvals_once : NoRepeats c.approvals
  pub promises_once : NoRepeats c.promises
  pub rejections_once : NoRepeats c.rejections

-- Each of AddAccept, AddPromise and AddRejection keeps a valid counter valid, and called again for
-- the same node it returns false and changes nothing.
pub add_vote_once :
    (c : ProposalCounter) (n : ℕ)
    → IsValid c
    → (IsValid (add_accept n c).0
        × ((add_accept n (add_accept n c).0) ≡ ((add_accept n c).0, false)))
      × (IsValid (add_promise n c).0
          × ((add_promise n (add_promise n c).0) ≡ ((add_promise n c).0, false)))
      × (IsValid (add_rejection n c).0
          × ((add_rejection n (add_rejection n c).0) ≡ ((add_rejection n c).0, false)))
unfolding add_accept add_promise add_rejection contains
add_vote_once c n v =
    ((ground arith, ground arith), (ground arith, ground arith), (ground arith, ground arith))
