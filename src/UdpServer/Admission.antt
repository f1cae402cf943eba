-- ===== src/UdpServer/Admission.antt =====
-- How a new peer enters the table of a listener.
use mavlink_router_rs.Base.{
  ℕ, ◌≡◌, ◌≤◌, ◌<◌, refl, subst, sym, ap, Bool, false, Option, none, some, List, [], ◌∷◌, ◌++◌,
  arith, not, ◌&&◌, leb, leb→le, leb→lt, ◌==◌, if◌then◌else◌, length, nat_eq, Bool-cases,
  Option-cases, inl, inr,
}
use mavlink_router_rs.Base.Entries.{min_by_key, min_by_key_cases, min_by_key_least, find, Least}
use mavlink_router_rs.Base.Table
use mavlink_router_rs.Base.Table.{Unique}
use mavlink_router_rs.Router.Registry.State.{EndpointEvent}
use mavlink_router_rs.UdpServer.{
  PeerEntry, UdpServerSpec, Listener, SocketAddr, seen, evict_lru_peer, admit_new_peer, new_peer,
  announcement, allocated,
}
use mavlink_router_rs.UdpServer.Laws.{IsValid, remove_peer-peers}

-- What is seen of a peer from outside: its id and when it was seen.
abbrev pub sighting : Option PeerEntry → Option (ℕ × ℕ)
sighting none = none
sighting (some peer) = some (peer.child_id, peer.last_seen)

-- Whether the peer that was found stands at an address.
abbrev pub stands_at : Option (ℕ × (ℕ × PeerEntry)) → ℕ → Bool
stands_at none addr = false
stands_at (some (index, (found, peer))) addr = found == addr

-- Whether the peer that was found was seen no later than a peer, if there is one.
abbrev pub IsOldest : Option (ℕ × (ℕ × PeerEntry)) → Option PeerEntry → Type 0
IsOldest none other = Unit
IsOldest (some found) none = Unit
IsOldest (some (index, (addr, peer))) (some other) = peer.last_seen ≤ other.last_seen

abbrev second : Option (ℕ × PeerEntry) → Option PeerEntry
second none = none
second (some (addr, peer)) = some peer

find-get :
    (addr : ℕ) (peers : List (ℕ × PeerEntry))
    → Table.get addr peers ≡ second (find (λ p. p.0) addr peers)
unfolding find Table.get
find-get addr [] = refl
find-get addr ((at, peer) ∷ peers) = ground (arith, find-get addr peers)

min_by_key-IsOldest :
    (addr : ℕ) (peers : List (ℕ × PeerEntry))
    → IsOldest (min_by_key seen peers) (Table.get addr peers)
min_by_key-IsOldest addr peers =
    subst (IsOldest (min_by_key seen peers)) (sym (find-get addr peers))
      (go (min_by_key seen peers) (find (λ p. p.0) addr peers) refl refl)
  where
    go :
        (o : Option (ℕ × (ℕ × PeerEntry))) (r : Option (ℕ × PeerEntry))
        → min_by_key seen peers ≡ o
        → find (λ p. p.0) addr peers ≡ r
        → IsOldest (min_by_key seen peers) (second (find (λ p. p.0) addr peers))
    go none r e f = rw e tt
    go (some found) none e f = rw (e, f) tt
    go (some (index, found)) (some other) e f =
        rw (e, f)
          (min_by_key_least (λ p. p.0) seen peers addr {i = index} {v = found} {a = other} e f)

module _ (spec : UdpServerSpec) (takes_event : List EndpointEvent → Bool)
    (address : ℕ → SocketAddr) where
  -- An eviction takes a peer from a table that has one.
  evict_lru_peer-room :
      (listener : Listener)
      → Unique listener.peers
      → Unique (evict_lru_peer spec takes_event address listener).peers
        × (0 < length listener.peers
            → length (evict_lru_peer spec takes_event address listener).peers
              < length listener.peers)
  evict_lru_peer-room listener u =
      go (min_by_key seen listener.peers) refl (min_by_key_cases seen listener.peers)
    where
      go :
          (o : Option (ℕ × (ℕ × PeerEntry)))
          → min_by_key seen listener.peers ≡ o
          → Least seen listener.peers o
          → Unique (evict_lru_peer spec takes_event address listener).peers
            × (0 < length listener.peers
                → length (evict_lru_peer spec takes_event address listener).peers
                  < length listener.peers)
      go none e empty =
          unfold evict_lru_peer in
          rw (e, evict_lru_peer) (u, λ some_peer. absurd (omega (arith, ap length empty)))
      go (some (index, found)) e (at, inside) =
          unfold evict_lru_peer in
          rw (e, evict_lru_peer)
            (rw (remove_peer-peers spec takes_event address _ found.0 listener) (
              Table.Unique-remove found.0 listener.peers u,
              λ some_peer. elim (Option-cases (Table.get found.0 listener.peers)) [
                | inl gone ↦ absurd (Table.get-elem listener.peers index at gone)
                | inr (peer, there) ↦ Table.length-remove-lt found.0 listener.peers there
              ],
            ))

  admit_new_peer-IsValid :
      (src now : ℕ) (listener : Listener)
      → IsValid spec listener
      → IsValid spec (admit_new_peer spec takes_event address src now listener).1
  unfolding admit_new_peer
  admit_new_peer-IsValid src now listener v = elim (Bool-cases (takes_event listener.events)) [
    | inr closed ↦
        rw closed (record { positive = v.positive; unique = v.unique; bounded = v.bounded })
    | inl taken ↦ elim (Bool-cases (leb spec.peer_capacity (length listener.peers))) [
      | inr room ↦ rw taken (
          rw room (record {
            positive = v.positive;
            unique = Table.Unique-insert src _ listener.peers v.unique;
            bounded =
                unfold Table.insert in
                omega (arith, leb→lt _ _ room, Table.length-remove-le src listener.peers);
          }))
      | inl full ↦
          let announced : Listener = record (allocated spec takes_event address listener) {
            events =
                listener.events ++ announcement spec takes_event address src listener.next_id ∷ [];
          } in
          let roomy = evict_lru_peer spec takes_event address announced in
          let (apart, less) = evict_lru_peer-room announced v.unique in
          rw taken (
            rw full (record {
              positive = v.positive;
              unique = Table.Unique-insert src _ roomy.peers apart;
              bounded =
                  unfold Table.insert in
                  omega (
                    arith,
                    v.bounded,
                    less (omega (arith, v.positive, leb→le _ _ full)),
                    Table.length-remove-le src roomy.peers,
                  );
            }))
    ]
  ]

  evict_lru_peer-get :
      (listener : Listener) (addr : ℕ)
      → Table.get addr (evict_lru_peer spec takes_event address listener).peers ≡ (
          if stands_at (min_by_key seen listener.peers) addr
          then none
          else Table.get addr listener.peers)
  evict_lru_peer-get listener addr = go (min_by_key seen listener.peers) refl
    where
      go :
          (o : Option (ℕ × (ℕ × PeerEntry)))
          → min_by_key seen listener.peers ≡ o
          → Table.get addr (evict_lru_peer spec takes_event address listener).peers
            ≡ (if stands_at o addr then none else Table.get addr listener.peers)
      go none e = unfold evict_lru_peer in rw (e, evict_lru_peer) refl
      go (some (index, found)) e =
          unfold evict_lru_peer in
          rw (e, evict_lru_peer)
            (rw (remove_peer-peers spec takes_event address _ found.0 listener)
              (Table.get-remove found.0 addr listener.peers))

  abbrev pub placed : ℕ → ℕ → ℕ → Bool → Listener → Option (ℕ × ℕ)
  placed src now addr gone listener =
      if src == addr
      then some (listener.next_id, now)
      else if gone
      then none
      else sighting (Table.get addr listener.peers)

  -- The sighting of an address after a packet of a new address `src`: of the peer that enters, of
  -- none if the peer had to leave a full table, or as before.
  abbrev pub sighting_after : ℕ → ℕ → ℕ → Listener → Option (ℕ × ℕ)
  sighting_after src now addr listener =
      if not (takes_event listener.events)
      then sighting (Table.get addr listener.peers)
      else placed src now addr
          (leb spec.peer_capacity (length listener.peers)
            && stands_at (min_by_key seen listener.peers) addr)
          listener

  insert-placed :
      (src now addr : ℕ) (peers : List (ℕ × PeerEntry)) (gone : Bool) (listener : Listener)
      → Table.get addr peers ≡ (if gone then none else Table.get addr listener.peers)
      → sighting (
          Table.get addr
            (Table.insert src (new_peer spec takes_event address listener.next_id now) peers))
        ≡ placed src now addr gone listener
  insert-placed src now addr peers gone listener e =
      let fresh = new_peer spec takes_event address listener.next_id now in
      rw (Table.get-insert src addr fresh peers) (ground (arith, e))

  admit_new_peer-sighting :
      (src now addr : ℕ) (listener : Listener)
      → ((admit_new_peer spec takes_event address src now listener).0 ≡ takes_event listener.events)
        × (sighting
              (Table.get addr (admit_new_peer spec takes_event address src now listener).1.peers)
            ≡ sighting_after src now addr listener)
  unfolding admit_new_peer
  admit_new_peer-sighting src now addr listener = elim (Bool-cases (takes_event listener.events)) [
    | inr closed ↦ rw closed (refl, refl)
    | inl taken ↦ elim (Bool-cases (leb spec.peer_capacity (length listener.peers))) [
      | inr room ↦
          rw (taken, room) (refl, insert-placed src now addr listener.peers false listener refl)
      | inl full ↦
          let announced : Listener = record (allocated spec takes_event address listener) {
            events =
                listener.events ++ announcement spec takes_event address src listener.next_id ∷ [];
          } in
          rw (taken, full)
            (
              refl,
              insert-placed src now addr (evict_lru_peer spec takes_event address announced).peers
                  (stands_at (min_by_key seen listener.peers) addr) listener
                  (evict_lru_peer-get announced addr),
            )
    ]
  ]

  -- In a table with one peer for each address and within its capacity, a packet of a new address is
  -- admitted exactly if the event channel takes the announcement. Then the address has a peer with
  -- the next id, seen now; if the table was full, the peer that `min_by_key` finds leaves it, which
  -- was seen no later than any peer; every other peer keeps its id and the time it was seen. If the channel takes
  -- nothing, all peers do. The table keeps one peer for each address and its capacity.
  pub admit_new_peer-get :
      (src now addr : ℕ) (listener : Listener)
      → IsValid spec listener
      → ((admit_new_peer spec takes_event address src now listener).0 ≡ takes_event listener.events)
        × (sighting
              (Table.get addr (admit_new_peer spec takes_event address src now listener).1.peers)
            ≡ sighting_after src now addr listener)
        × IsOldest (min_by_key seen listener.peers) (Table.get addr listener.peers)
        × IsValid spec (admit_new_peer spec takes_event address src now listener).1
  admit_new_peer-get src now addr listener v =
      let (flag, got) = admit_new_peer-sighting src now addr listener in
      (
        flag,
        got,
        min_by_key-IsOldest addr listener.peers,
        admit_new_peer-IsValid src now listener v,
      )
