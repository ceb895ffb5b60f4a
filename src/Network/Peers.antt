-- ===== src/Network/Peers.antt =====
-- Node ids and addresses.
use paxosme.Prelude.{
  ℕ, ◌+◌, ◌-◌, ◌*◌, ◌/◌, ◌%◌, ◌^◌, ◌<◌, ◌≡◌, ◌≢◌, ◌==◌, if◌then◌else◌, Bytes, Run, ok, fault,
  assertion_failed, arith,
}

-- inet_ntoa and inet_addr of the C library on the 32 bits of an address. Every address is read back
-- from its text; the one of all ones is also what inet_addr returns for a bad text.
pub record Inet : Type 0 where
  pub inet_ntoa : ℕ → Bytes
  pub inet_addr : Bytes → ℕ
  pub inet_addr-inet_ntoa : (a : ℕ) → a < 2 ^ 32 → inet_addr (inet_ntoa a) ≡ a

pub record Peer : Type 0 where
  pub ip : Bytes
  pub port : ℕ

abbrev pub no_address : ℕ
no_address = 2 ^ 32 - 1

module _ ⦃inet : Inet⦄ where
  -- NodeIdToPeer
  unfoldable pub node_id_to_peer : ℕ → Peer
  node_id_to_peer node_id = record {
    ip = inet.inet_ntoa (node_id / 2 ^ 32 % 2 ^ 32);
    port = node_id % 2 ^ 32;
  }

  -- PeerToNodeId; a port has 32 bits.
  unfoldable pub peer_to_node_id : Peer → Run ℕ
  peer_to_node_id peer =
      let addr = inet.inet_addr peer.ip in
      if addr == no_address then fault assertion_failed else ok (addr * 2 ^ 32 + peer.port)

  -- A node id of 64 bits comes back from its peer, but for one whose address is all ones, which
  -- fails the assertion.
  pub peer_to_node_id-node_id_to_peer :
      (node_id : ℕ)
      → node_id < 2 ^ 64
      → (node_id / 2 ^ 32 ≢ no_address → peer_to_node_id (node_id_to_peer node_id) ≡ ok node_id)
        × (node_id / 2 ^ 32 ≡ no_address
            → peer_to_node_id (node_id_to_peer node_id) ≡ fault assertion_failed)
  unfolding peer_to_node_id node_id_to_peer
  peer_to_node_id-node_id_to_peer node_id small =
      let upper : node_id / 2 ^ 32 % 2 ^ 32 ≡ node_id / 2 ^ 32 = omega arith in
      let back = inet.inet_addr-inet_ntoa (node_id / 2 ^ 32) (omega arith) in
      ((λ ne. rw (upper, back) (ground arith)), (λ e. rw (upper, back) (ground arith)))
