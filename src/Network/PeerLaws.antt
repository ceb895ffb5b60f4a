-- ===== src/Network/PeerLaws.antt =====
-- What Contains says of a PeerSet after Add and Remove, and after its construction.
use paxosme.Prelude.{
  ◌≡◌, refl, sym, ap, ◌∙◌, true, ◌||◌, List, [], ◌∷◌, ◌++◌, inl, inr, Bool-cases, bytes_eq_refl,
  bytes_eq-eq, arith,
}
use paxosme.Network.Peers.{Peer}
use paxosme.Network.PeerSet.{same_peer, contains, add, of_list}

same_peer-eq : (p q : Peer) → same_peer p q ≡ true → p ≡ q
unfolding same_peer
same_peer-eq p q h = ground (arith, bytes_eq-eq p.ip q.ip)

same_peer_refl : (p : Peer) → same_peer p p ≡ true
unfolding same_peer
same_peer_refl p = ground (arith, bytes_eq_refl p.ip)

contains-append :
    (q p : Peer) (ps : List Peer) → contains q (ps ++ p ∷ []) ≡ (contains q ps || same_peer p q)
unfolding contains
contains-append q p [] = ground arith
contains-append q p (r ∷ rs) = ground (arith, contains-append q p rs)

-- A peer that is in the set is the one that was added, or was there before.
pub contains-add :
    (q p : Peer) (ps : List Peer) → contains q (add p ps) ≡ (contains q ps || same_peer p q)
unfolding add
contains-add q p ps = elim (Bool-cases (contains p ps)) [
  | inl there ↦ elim (Bool-cases (same_peer p q)) [
    | inl same ↦
        let there' : contains q ps ≡ true =
          ap (λ x. contains x ps) (sym (same_peer-eq p q same)) ∙ there in
        rw (there, there') refl
    | inr other ↦ rw (there, other) (ground arith)
  ]
  | inr absent ↦ rw absent (contains-append q p ps)
]

-- The set made of a list, added to another.
pub contains-of_list :
    (q : Peer) (qs ps : List Peer) → contains q (of_list qs ps) ≡ (contains q ps || contains q qs)
unfolding of_list contains
contains-of_list q [] ps = ground arith
contains-of_list q (r ∷ rs) ps =
    ground (arith, contains-of_list q rs (add r ps), contains-add q r ps)
