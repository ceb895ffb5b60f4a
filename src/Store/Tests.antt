-- ===== src/Store/Tests.antt =====
-- A storage in memory and an encoding of entries, at which the interfaces' laws hold.
use paxosme.Prelude.{
  refl, true, List, [], ◌∷◌, Option, none, some, Bytes, bytes_eq, bytes_eq_refl, bytes_eq-eq,
  if◌then◌else◌, inl, inr, Bool-cases,
}
use paxosme.Store.Entry.{LogStorage, PaxosLogEntry, default_entry, EntryCodec}
use paxosme.Store.Log.{ReadsBack}

abbrev lookup_bytes : Bytes → List (Bytes × Bytes) → Option Bytes
lookup_bytes k [] = none
lookup_bytes k ((j, v) ∷ m) = if bytes_eq j k then some v else lookup_bytes k m

instance abbrev pub memory_storage : LogStorage (List (Bytes × Bytes))
memory_storage = record {
  put = λ k v s. ((k, v) ∷ s, true);
  get = lookup_bytes;
  delete = λ k s. (s, true);
}

pub memory_storage-ReadsBack : ReadsBack memory_storage
memory_storage-ReadsBack = record {
  get-put = λ k v s h. rw (bytes_eq_refl k);
  get-put_ne = λ k j v s ne. elim (Bool-cases (bytes_eq k j)) [
    | inl same ↦ absurd (ne (bytes_eq-eq k j same))
    | inr other ↦ rw other
  ];
}

abbrev encode : PaxosLogEntry → Bytes
encode e =
    e.instance_id ∷ e.promised_proposal_id ∷ e.promised_node_id ∷ e.accepted_proposal_id
    ∷ e.accepted_node_id ∷ e.proposer_id ∷ e.leader_instance_id ∷ e.accepted_value

abbrev decode : Bytes → PaxosLogEntry
decode (a ∷ b ∷ c ∷ d ∷ e ∷ f ∷ g ∷ v) = record {
  instance_id = a;
  promised_proposal_id = b;
  promised_node_id = c;
  accepted_proposal_id = d;
  accepted_node_id = e;
  accepted_value = v;
  proposer_id = f;
  leader_instance_id = g;
}
decode _ = default_entry

instance abbrev pub list_codec : EntryCodec
list_codec = record { serialize = encode; parse = decode; parse-serialize = λ e h. refl }

abbrev no_log : List (Bytes × Bytes)
no_log = []

abbrev third_entry : PaxosLogEntry
third_entry = record default_entry {
  instance_id = 3;
  promised_proposal_id = 4;
  promised_node_id = 2;
}
