-- ===== src/Network/Servers.antt =====
-- The servers of NetworkImpl under their node ids, over the virtual functions of NetworkServer.
use paxosme.Prelude.{
  ℕ, suc, ◌≡◌, refl, sym, ap, ◌∙◌, Bool, true, false, Option, none, some, List, [], ◌∷◌, ◌==◌,
  if◌then◌else◌, inl, inr, Bool-cases, All, length, Run, ok, ◌>>=◌, >>=-eq-ok, ◌⊎◌, arith,
}
use paxosme.Network.Peers.{Inet, Peer, peer_to_node_id}

-- NetworkServer: its functions, and what each says of Running. A server is told of the callback
-- whether there is one.
pub record NetworkServer (S : Type 0) : Type 0 where
  pub new_server : Peer → S
  pub start : (has_callback : Bool) → S → S
  pub shutdown : S → S
  pub running : S → Bool
  pub new-running : (peer : Peer) → running (new_server peer) ≡ false
  pub start-running : (has_callback : Bool) (s : S) → running (start has_callback s) ≡ true
  pub shutdown-running : (s : S) → running (shutdown s) ≡ false

module _ {S : Type 0} where
  unfoldable pub find_server : ℕ → List (ℕ × S) → Option S
  find_server node_id [] = none
  find_server node_id ((i, s) ∷ ss) = if i == node_id then some s else find_server node_id ss

  -- emplace: an id that is there keeps its server.
  unfoldable pub emplace_server : ℕ → S → List (ℕ × S) → List (ℕ × S)
  unfolding find_server
  emplace_server node_id s ss = elim (find_server node_id ss) [
    | none ↦ (node_id, s) ∷ ss
    | some _ ↦ ss
  ]

module _ {S : Type 0} ⦃server : NetworkServer S⦄ where
  -- The loop of Network::New
  unfoldable pub new_servers : ⦃inet : Inet⦄ → List Peer → List (ℕ × S) → Run (List (ℕ × S))
  unfolding emplace_server peer_to_node_id
  new_servers [] ss = ok ss
  new_servers (p ∷ ps) ss = peer_to_node_id p >>= λ node_id.
      new_servers ps (emplace_server node_id (server.new_server p) ss)

  -- The loop of Network::Start over the servers
  unfoldable pub start_servers : (has_callback : Bool) → List (ℕ × S) → List (ℕ × S)
  start_servers has_callback [] = []
  start_servers has_callback ((i, s) ∷ ss) =
      (i, server.start has_callback s) ∷ start_servers has_callback ss

  -- The loop of the destructor: the servers as they are when they are freed.
  unfoldable pub shutdown_servers : List (ℕ × S) → List S
  shutdown_servers [] = []
  shutdown_servers ((i, s) ∷ ss) = server.shutdown s ∷ shutdown_servers ss

  abbrev pub AllRunning : Bool → List (ℕ × S) → Type 0
  AllRunning b ss = All (λ (e : ℕ × S). server.running e.1 ≡ b) ss

  -- A server of that id is there, and runs or not.
  abbrev pub Has : Bool → List (ℕ × S) → ℕ → Type 0
  Has b ss node_id = (s : S) × (find_server node_id ss ≡ some s) × (server.running s ≡ b)

  pub start_servers-AllRunning :
      (c : Bool) (ss : List (ℕ × S)) → AllRunning true (start_servers c ss)
  unfolding start_servers
  start_servers-AllRunning c [] = tt
  start_servers-AllRunning c ((i, s) ∷ ss) =
      (server.start-running c s, start_servers-AllRunning c ss)

  pub shutdown_servers_lem :
      (ss : List (ℕ × S))
      → All (λ (s : S). server.running s ≡ false) (shutdown_servers ss)
        × (length (shutdown_servers ss) ≡ length ss)
  unfolding shutdown_servers
  shutdown_servers_lem [] = (tt, refl)
  shutdown_servers_lem ((i, s) ∷ ss) =
      let (off, same) = shutdown_servers_lem ss in ((server.shutdown-running s, off), ap suc same)

  -- Starting keeps the ids.
  find_server-start :
      (c : Bool) (node_id : ℕ) (ss : List (ℕ × S)) (s : S)
      → find_server node_id ss ≡ some s
      → Has true (start_servers c ss) node_id
  unfolding find_server start_servers
  find_server-start c node_id [] s e = cc
  find_server-start c node_id ((i, t) ∷ ss) s e = elim (Bool-cases (i == node_id)) [
    | inl here ↦ rw here (server.start c t, refl, server.start-running c t)
    | inr other ↦ rw other (find_server-start c node_id ss s (rw other at e))
  ]

  emplace_absent :
      (node_id : ℕ) (new : S) (ss : List (ℕ × S))
      → find_server node_id ss ≡ none
      → emplace_server node_id new ss ≡ (node_id, new) ∷ ss
  unfolding emplace_server
  emplace_absent node_id new ss e = rw (emplace_server, e) refl

  emplace_present :
      (node_id : ℕ) (new s : S) (ss : List (ℕ × S))
      → find_server node_id ss ≡ some s
      → emplace_server node_id new ss ≡ ss
  unfolding emplace_server
  emplace_present node_id new s ss e = rw (emplace_server, e) refl

  find_server-cases :
      (node_id : ℕ) (ss : List (ℕ × S))
      → (find_server node_id ss ≡ none) ⊎ ((s : S) × (find_server node_id ss ≡ some s))
  find_server-cases node_id ss =
      elim (find_server node_id ss) as (λ o. (o ≡ none) ⊎ ((s : S) × (o ≡ some s))) [
        | none ↦ inl refl
        | some s ↦ inr (s, refl)
      ]

  -- An id that is there stays there with its server, and the new one is there.
  emplace_server-find :
      (node_id j : ℕ) (new s : S) (ss : List (ℕ × S))
      → find_server j ss ≡ some s
      → find_server j (emplace_server node_id new ss) ≡ some s
  unfolding find_server
  emplace_server-find node_id j new s ss e = elim (find_server-cases node_id ss) [
    | inl absent ↦ rw (emplace_absent node_id new ss absent) (elim (Bool-cases (node_id == j)) [
      | inl same ↦
          let id : node_id ≡ j = ground arith in
          let clash : none ≡ some s = sym (rw id at absent) ∙ e in cc
      | inr other ↦ rw other e
    ])
    | inr (t, there) ↦ rw (emplace_present node_id new t ss there) e
  ]

  emplace_server-here :
      (node_id : ℕ) (new : S) (ss : List (ℕ × S))
      → (s : S) × (find_server node_id (emplace_server node_id new ss) ≡ some s)
  unfolding find_server
  emplace_server-here node_id new ss = elim (find_server-cases node_id ss) [
    | inl absent ↦
        let same : (node_id == node_id) ≡ true = ground arith in
        (new, rw (emplace_absent node_id new ss absent) (rw same refl))
    | inr (t, there) ↦ (t, rw (emplace_present node_id new t ss there) there)
  ]

  -- The id of a peer is in the map.
  abbrev pub Placed : ⦃inet : Inet⦄ → List (ℕ × S) → Peer → Type 0
  Placed ss p = (j : ℕ) × (s : S) × (peer_to_node_id p ≡ ok j) × (find_server j ss ≡ some s)

  -- The peers' ids are in the map that New makes, and the ids that were there before.
  pub new_servers-find :
      ⦃inet : Inet⦄ (ps : List Peer) (ss made : List (ℕ × S))
      → new_servers ps ss ≡ ok made
      → ((j : ℕ) (s : S) → find_server j ss ≡ some s → find_server j made ≡ some s)
        × All (Placed made) ps
  unfolding new_servers
  new_servers-find [] ss made e =
      let same : ss ≡ made = cc in ((λ j s there. rw (← same) there), tt)
  new_servers-find (p ∷ ps) ss made e =
      let (node_id, placed, rest) = >>=-eq-ok (peer_to_node_id p) _ e in
      let (kept, found) =
        new_servers-find ps (emplace_server node_id (server.new_server p) ss) made rest in
      let (s, here) = emplace_server-here node_id (server.new_server p) ss in
      (
        (λ j t there. kept j t (emplace_server-find node_id j (server.new_server p) t ss there)),
        ((node_id, s, placed, kept node_id s here), found),
      )

  -- Where New gives a map and Start has been called, every server runs, and the id of each peer has
  -- one.
  pub started_servers :
      ⦃inet : Inet⦄ (c : Bool) (qs : List Peer) (made : List (ℕ × S))
      → All (Placed made) qs
      → All
          (λ (p : Peer). (j : ℕ) × (peer_to_node_id p ≡ ok j) × Has true (start_servers c made) j)
          qs
  started_servers c [] made placed = tt
  started_servers c (q ∷ qs) made ((j, s, id, here), placed) =
      ((j, id, find_server-start c j made s here), started_servers c qs made placed)
