-- ===== src/Prov/Tests.antt =====
-- Calls of one client and the proposer.
use paxosme.Prelude.{◌≡◌, refl, [], ◌∷◌, none, ok}
use paxosme.Queue.{try_add}
use paxosme.Prov.Defs.{ProposalProv, value_accepted, submit, finish, write_result}

abbrev start : ProposalProv
start = record {
  timeout_ms = 1000;
  instance_id = 0;
  index = 1;
  finish_index = 0;
  queue = record { items = []; limit = 10 };
}

abbrev submitted : ProposalProv
submitted = (submit start (7 ∷ [])).0

-- The client of index 1 waits on after its value has been accepted.
accepted_value_waits : finish (write_result submitted (7 ∷ []) 3 value_accepted).0 1 ≡ ok none
unfolding submit try_add write_result finish
accepted_value_waits = refl
