-- ===== src/Endpoint/TxQueue/Bounded.antt =====
-- A bounded queue on a list: it has the behaviour that `ArrayQueue` documents, so what is shown of
-- every such queue is shown of something.
use mavlink_router_rs.Base.{
  ℕ, ◌≤◌, ◌<◌, ◌≡◌, refl, Option, none, some, List, [], ◌∷◌, ◌++◌, arith, ltb, lt→ltb, le→ltb,
  if◌then◌else◌, length,
}
use mavlink_router_rs.Endpoint.TxQueue.{Bytes, ArrayQueue}

pub record Bounded : Type 0 where
  pub items : List Bytes
  pub bound : ℕ

unfoldable push_full : List Bytes → ℕ → Bytes → Bounded × Option Bytes
push_full [] bound frame = (record { items = frame ∷ []; bound = bound }, none)
push_full (oldest ∷ rest) bound frame =
    (record { items = rest ++ frame ∷ []; bound = bound }, some oldest)

unfoldable pub force : Bounded → Bytes → Bounded × Option Bytes
unfolding push_full
force q frame =
    if ltb (length q.items) q.bound
    then (record q { items = q.items ++ frame ∷ [] }, none)
    else push_full q.items q.bound frame

unfoldable pub take_first : List Bytes → ℕ → Bounded × Option Bytes
take_first [] bound = (record { items = []; bound = bound }, none)
take_first (oldest ∷ rest) bound = (record { items = rest; bound = bound }, some oldest)

pub room :
    (q : Bounded) (frame : Bytes)
    → length q.items < q.bound
    → ((force q frame).0.items ≡ q.items ++ frame ∷ []) × ((force q frame).1 ≡ none)
unfolding force
room q frame h = rw (lt→ltb (length q.items) q.bound h) (refl, refl)

pub full :
    (q : Bounded) (frame oldest : Bytes) (rest : List Bytes)
    → q.bound ≤ length q.items
    → q.items ≡ oldest ∷ rest
    → ((force q frame).0.items ≡ rest ++ frame ∷ []) × ((force q frame).1 ≡ some oldest)
unfolding force
full q frame oldest rest h e = rw (le→ltb (length q.items) q.bound h) (rw e (refl, refl))

pub same_bound : (q : Bounded) (frame : Bytes) → (force q frame).0.bound ≡ q.bound
unfolding force
same_bound q frame = ground arith

pub first_none :
    (q : Bounded)
    → q.items ≡ []
    → ((take_first q.items q.bound).0.items ≡ []) × ((take_first q.items q.bound).1 ≡ none)
unfolding take_first
first_none q e = rw e (refl, refl)

pub first_some :
    (q : Bounded) (oldest : Bytes) (rest : List Bytes)
    → q.items ≡ oldest ∷ rest
    → ((take_first q.items q.bound).0.items ≡ rest) × ((take_first q.items q.bound).1 ≡ some oldest)
unfolding take_first
first_some q oldest rest e = rw e (refl, refl)

pub first_bound : (q : Bounded) → (take_first q.items q.bound).0.bound ≡ q.bound
unfolding take_first
first_bound q = ground arith

abbrev pub list_queue : ArrayQueue
list_queue = record {
  Queue = Bounded;
  make = λ cap. record { items = []; bound = cap };
  force_push = force;
  pop = λ q. take_first q.items q.bound;
  contents = λ q. q.items;
  capacity = λ q. q.bound;
  contents-make = λ cap. refl;
  capacity-make = λ cap. refl;
  force_push_room = room;
  force_push_full = full;
  capacity-force_push = same_bound;
  pop_empty = first_none;
  pop_next = first_some;
  capacity-pop = first_bound;
}
