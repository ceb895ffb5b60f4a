-- ===== src/Network/PeerSet.antt =====
-- PeerSet: a std::unordered_set of peers under Peer's `operator==`. The order in which it is gone
-- through is the library's; here it is the one of insertion.
use paxosme.Prelude.{Bool, false, ◌&&◌, ◌||◌, List, [], ◌∷◌, ◌++◌, ◌==◌, if◌then◌else◌, bytes_eq}
use paxosme.Network.Peers.{Peer}

-- Peer::operator==
unfoldable pub same_peer : Peer → Peer → Bool
same_peer p q = p.port == q.port && bytes_eq p.ip q.ip

abbrev pub PeerSet : Type 0
PeerSet = List Peer

-- PeerSet::Contains
unfoldable pub contains : Peer → PeerSet → Bool
unfolding same_peer
contains peer [] = false
contains peer (p ∷ ps) = same_peer p peer || contains peer ps

-- PeerSet::Add
unfoldable pub add : Peer → PeerSet → PeerSet
unfolding contains
add peer ps = if contains peer ps then ps else ps ++ peer ∷ []

unfoldable pub erase : Peer → PeerSet → PeerSet
unfolding same_peer
erase peer [] = []
erase peer (p ∷ ps) = if same_peer p peer then ps else p ∷ erase peer ps

-- PeerSet::Remove
unfoldable pub remove : Peer → PeerSet → PeerSet × Bool
unfolding erase contains
remove peer ps = (erase peer ps, contains peer ps)

-- PeerSet::PeerSet
unfoldable pub of_list : List Peer → PeerSet → PeerSet
unfolding add
of_list [] ps = ps
of_list (q ∷ qs) ps = of_list qs (add q ps)
