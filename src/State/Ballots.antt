-- ===== src/State/Ballots.antt =====
-- The reports of a proposer's acceptors, and which of them decides the value that it proposes.
use paxosme.Prelude.{
  ℕ, ◌+◌, ◌≤◌, ◌<◌, ◌≡◌, refl, ◌∙◌, ◌⊎◌, inl, inr, List, [], ◌∷◌, All, Any, arith,
}
use paxosme.Message.{u64_mod, LogValue}
use paxosme.State.Proposer.{ProposerState, try_update_log_value, new_proposal_id}

-- The order on ballots, by proposal id and then by node id.
abbrev pub BallotLe : ℕ → ℕ → ℕ → ℕ → Type 0
BallotLe p m q n = (p < q) ⊎ ((p ≡ q) × (m ≤ n))

-- A reply that reports an accepted proposal: its number, its proposer and its value.
pub record Report : Type 0 where
  pub proposal_id : ℕ
  pub node_id : ℕ
  pub value : LogValue

-- TryUpdateLogValue on each report in turn
unfoldable pub learn_reports : List Report → ProposerState → ProposerState
learn_reports [] s = s
learn_reports (r ∷ rs) s =
    learn_reports rs (try_update_log_value r.proposal_id r.node_id r.value s).0

abbrev pub Covers : ProposerState → Report → Type 0
Covers s r = BallotLe r.proposal_id r.node_id s.highest_known_proposal s.highest_proposal_provider

abbrev pub Grows : ProposerState → ProposerState → Type 0
Grows s t =
    BallotLe s.highest_known_proposal s.highest_proposal_provider t.highest_known_proposal
      t.highest_proposal_provider

-- The state stands for the report: it has its ballot and its value.
abbrev pub StandsFor : ProposerState → Report → Type 0
StandsFor s r =
    (s.highest_known_proposal ≡ r.proposal_id)
    × (s.highest_proposal_provider ≡ r.node_id)
    × (s.log_value ≡ r.value)

update-Covers :
    (r : Report) (s : ProposerState)
    → let t = (try_update_log_value r.proposal_id r.node_id r.value s).0 in
      Covers t r × Grows s t × ((t ≡ s) ⊎ StandsFor t r)
unfolding try_update_log_value
update-Covers r s = ground arith

Covers-Grows : (r : Report) (s t : ProposerState) → Covers s r → Grows s t → Covers t r
Covers-Grows r s t a b = ground arith

Grows-trans : (s t u : ProposerState) → Grows s t → Grows t u → Grows s u
Grows-trans s t u a b = ground arith

learn_reports-Grows : (rs : List Report) (s : ProposerState) → Grows s (learn_reports rs s)
unfolding learn_reports
learn_reports-Grows [] s = inr (refl, omega arith)
learn_reports-Grows (r ∷ rs) s =
    let t = (try_update_log_value r.proposal_id r.node_id r.value s).0 in
    Grows-trans s t (learn_reports rs t) (update-Covers r s).1 (learn_reports-Grows rs t)

after_report :
    (r : Report) (rs : List Report) (s t : ProposerState)
    → Covers t r × Grows s t × ((t ≡ s) ⊎ StandsFor t r)
    → (learn_reports rs t ≡ t) ⊎ Any (StandsFor (learn_reports rs t)) rs
    → (learn_reports rs t ≡ s) ⊎ Any (StandsFor (learn_reports rs t)) (r ∷ rs)
after_report r rs s t step (inr later) = inr (inr later)
after_report r rs s t step (inl same) = elim step.2 [
  | inl kept ↦ inl (same ∙ kept)
  | inr new ↦ inr (inl (rw same new))
]

-- After the reports of any number of acceptors, the ballot that the proposer knows is at least
-- that of each report, and its value is that of a report with this very ballot, or nothing has
-- changed.
pub learn_reports_highest :
    (rs : List Report) (s : ProposerState)
    → All (Covers (learn_reports rs s)) rs
      × ((learn_reports rs s ≡ s) ⊎ Any (StandsFor (learn_reports rs s)) rs)
unfolding learn_reports
learn_reports_highest [] s = (tt, inl refl)
learn_reports_highest (r ∷ rs) s =
    let t = (try_update_log_value r.proposal_id r.node_id r.value s).0 in
    let rest = learn_reports_highest rs t in
    (
      (
        Covers-Grows r t (learn_reports rs t) (update-Covers r s).0 (learn_reports-Grows rs t),
        rest.0,
      ),
      after_report r rs s t (update-Covers r s) rest.1,
    )

-- As long as the counter stays below 2^64, NewProposalId gives an id above both its own last one and
-- every one that it has heard of, and changes nothing else.
pub new_proposal_id_above :
    (s : ProposerState)
    → s.my_proposal_id + 1 < u64_mod
    → s.highest_known_proposal + 1 < u64_mod
    → (s.my_proposal_id < (new_proposal_id s).my_proposal_id)
      × (s.highest_known_proposal < (new_proposal_id s).my_proposal_id)
      × (new_proposal_id s ≡ record s { my_proposal_id = (new_proposal_id s).my_proposal_id })
unfolding new_proposal_id
new_proposal_id_above s a b = ground arith
