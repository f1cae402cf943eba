-- ===== src/Router/Tests.antt =====
-- Runs of the router's parts on small concrete states.
use mavlink_router_rs.Base.{
  ◌+◌, ◌≡◌, ◌↔◌, ◌⊎◌, refl, true, ◌&&◌, [], ◌∷◌, none, some, arith, name_key, nat_eq, if◌then◌else◌,
  ◌==◌, leb, length,
}
use mavlink_router_rs.Base.Entries.{find}
use mavlink_router_rs.Endpoint.Filters.{plain}
use mavlink_router_rs.Mavlink.Frame.{NodeId, ParsedHeader, Version, node_beq, node_key}
use mavlink_router_rs.Router.Decide.{decide, admit, target_match}
use mavlink_router_rs.Router.Decide.Laws.{IsMeantFor, IsWanted, target_match_iff, decide-admit_iff}
use mavlink_router_rs.Router.Dedup
use mavlink_router_rs.Router.Dedup.{DedupWindow, check_and_insert, expire_stale}
use mavlink_router_rs.Router.Dedup.Expiry.{hash_of, live, is_some}
use mavlink_router_rs.Router.Dedup.Steps as DedupSteps
use mavlink_router_rs.Router.Dedup.Laws.{
  check_and_insert-IsValid, check_and_insert-live, find-check_and_insert,
}
use mavlink_router_rs.Router.Dedup.Steps.{fronted, front}
use mavlink_router_rs.Router.Learn.{LearnTable, touch}
use mavlink_router_rs.Router.Learn.Valid as LearnValid
use mavlink_router_rs.Router.Learn.Laws.{evicts, last_seen-touch}
use mavlink_router_rs.Router.Learn.Valid.{last_seen, victim}

abbrev drone : NodeId
drone = record { sys = 1; comp = 1 }

abbrev station : NodeId
station = record { sys = 255; comp = 190 }

abbrev other_drone : NodeId
other_drone = record { sys = 2; comp = 1 }

-- A table for two nodes, which is full.
abbrev full_table : LearnTable
full_table = record {
  entries = record { node = drone; last_seen = 5 } ∷ record { node = station; last_seen = 3 } ∷ [];
  capacity = 2;
}

full_table-IsValid : LearnValid.IsValid full_table
unfolding find node_beq
full_table-IsValid = record {
  positive = omega arith;
  bounded = omega arith;
  distinct = (refl, (refl, tt));
}

last_seen-touch_example : last_seen (touch full_table other_drone 9).0 station ≡ (
    if node_beq other_drone station
    then some 9
    else if evicts (victim full_table other_drone) station
    then none
    else last_seen full_table station)
last_seen-touch_example = last_seen-touch full_table full_table-IsValid other_drone 9 station

-- The hash of a frame is its length here.
abbrev window : DedupWindow
window = Dedup.new 10 2

check_and_insert-IsValid_example :
    DedupSteps.IsValid 4 (check_and_insert length window (1 ∷ 2 ∷ []) 4).0
unfolding Dedup.new Dedup.is_enabled
check_and_insert-IsValid_example =
    check_and_insert-IsValid length 0 4 window (DedupSteps.new-IsValid 10 2 0) (omega arith) refl
      (1 ∷ 2 ∷ [])

check_and_insert-live_example :
    (check_and_insert length window (1 ∷ 2 ∷ []) 4).1
    ≡ is_some (live 4 (find hash_of 2 window.ring))
unfolding Dedup.new Dedup.is_enabled
check_and_insert-live_example =
    check_and_insert-live length 0 4 window (DedupSteps.new-IsValid 10 2 0) (omega arith) refl
      (1 ∷ 2 ∷ [])

find-check_and_insert_example :
    find hash_of 2 (check_and_insert length window (1 ∷ 2 ∷ []) 4).0.ring ≡ (
      if (check_and_insert length window (1 ∷ 2 ∷ []) 4).1
      then live 4 (find hash_of 2 window.ring)
      else if 2 == 2
      then some (record { hash = 2; deadline = 4 + window.ttl })
      else if leb window.capacity (length (expire_stale window 4).ring)
          && fronted (front (expire_stale window 4).ring) 2
      then none
      else live 4 (find hash_of 2 window.ring))
unfolding Dedup.new Dedup.is_enabled
find-check_and_insert_example =
    find-check_and_insert length 0 4 window (DedupSteps.new-IsValid 10 2 0) (omega arith) refl
      (1 ∷ 2 ∷ []) 2

-- A command for the drone, from the station.
abbrev command : ParsedHeader
command = record {
  version = Version.v2;
  source = station;
  msgid = 76;
  seq = 0;
  payload_len = 33;
  target_system = some 1;
  target_component = some 1;
}

-- The table of an endpoint behind which the drone is.
abbrev drone_table : LearnTable
drone_table = record { entries = record { node = drone; last_seen = 5 } ∷ []; capacity = 32 }

target_match_iff_example :
    (target_match command drone_table ≡ true) ↔ IsMeantFor (some 1) (some 1) drone_table
target_match_iff_example = target_match_iff command drone_table

decide-admit_iff_example :
    (decide command drone_table plain [] ≡ admit)
    ↔ ((plain.sniffer ≡ true) ⊎ IsWanted command drone_table plain [])
decide-admit_iff_example = decide-admit_iff command drone_table plain []
