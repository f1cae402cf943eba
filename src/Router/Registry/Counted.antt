-- ===== src/Router/Registry/Counted.antt =====
-- Every endpoint has its own id, and a group counts at least its registered endpoints.
use mavlink_router_rs.Base.{
  ℕ, ◌+◌, ◌-◌, ◌≡◌, ◌≤◌, ap, Bool, false, Option, none, some, List, arith, if◌then◌else◌, Name,
  nat_eq, name_key, name_eq, name_eq_iff,
}
use mavlink_router_rs.Base.Table
use mavlink_router_rs.Base.Table.{Unique, count, counts}
use mavlink_router_rs.Router.Group.{GroupLearn, GroupRegistry}
use mavlink_router_rs.Router.Group.Laws.{members, members_in, join_lem, leave_lem, members-insert}
use mavlink_router_rs.Router.Registry.State.{
  RegisteredEndpoint, learn_capacity, join_group, leave_group, group_of,
}

abbrev pub named : Name → Option Name → Bool
named name none = false
named name (some group) = name_eq group name

-- Whether an endpoint is a member of a group.
abbrev pub in_group : Name → RegisteredEndpoint → Bool
in_group name entry = named name (group_of entry.routable)

-- Every endpoint has its own id, and a group counts all its endpoints that are registered.
pub record IsValid (routing : List (ℕ × RegisteredEndpoint)) (groups : GroupRegistry) : Type 0 where
  pub unique : Unique routing
  pub counted : (name : Name) → count (in_group name) routing ≤ members name groups

members-join_group :
    (groups : GroupRegistry) (group : Option Name) (name : Name)
    → members name (join_group groups group)
      ≡ members name groups + (if named name group then 1 else 0)
unfolding join_group
members-join_group groups none name = omega arith
members-join_group groups (some group) name = (join_lem groups group name learn_capacity).0

pub members-leave_group :
    (groups : GroupRegistry) (group : Option Name) (name : Name)
    → members name (leave_group groups group)
      ≡ members name groups - (if named name group then 1 else 0)
unfolding leave_group
members-leave_group groups none name = omega arith
members-leave_group groups (some group) name = (leave_lem groups group name).0

-- An endpoint is added after it joined its group.
pub insert-IsValid :
    (routing : List (ℕ × RegisteredEndpoint)) (groups : GroupRegistry) (id : ℕ)
    (entry : RegisteredEndpoint)
    → IsValid routing groups
    → IsValid (Table.insert id entry routing) (join_group groups (group_of entry.routable))
insert-IsValid routing groups id entry v = record {
  unique = Table.Unique-insert id entry routing v.unique;
  counted = λ name. omega (
    arith,
    Table.count-insert (in_group name) id entry routing v.unique,
    members-join_group groups (group_of entry.routable) name,
    v.counted name,
  );
}

-- An endpoint is removed, and leaves its group.
pub remove-IsValid :
    (routing : List (ℕ × RegisteredEndpoint)) (groups : GroupRegistry) (id : ℕ)
    {entry : RegisteredEndpoint}
    → IsValid routing groups
    → Table.get id routing ≡ some entry
    → IsValid (Table.remove id routing) (leave_group groups (group_of entry.routable))
remove-IsValid routing groups id {entry = entry} v e = record {
  unique = Table.Unique-remove id routing v.unique;
  counted = λ name. omega (
    arith,
    Table.count-remove (in_group name) id routing v.unique,
    ap (counts (in_group name)) e,
    members-leave_group groups (group_of entry.routable) name,
    v.counted name,
  );
}

-- An endpoint is replaced by one of the same group.
pub replace-IsValid :
    (routing : List (ℕ × RegisteredEndpoint)) (groups : GroupRegistry) (id : ℕ)
    {old : RegisteredEndpoint} (entry : RegisteredEndpoint)
    → IsValid routing groups
    → Table.get id routing ≡ some old
    → group_of entry.routable ≡ group_of old.routable
    → IsValid (Table.insert id entry routing) groups
replace-IsValid routing groups id {old = old} entry v e same = record {
  unique = Table.Unique-insert id entry routing v.unique;
  counted = λ name. omega (
    arith,
    Table.count-insert (in_group name) id entry routing v.unique,
    ap (counts (in_group name)) e,
    ap {B = ℕ} (λ group. if named name group then 1 else 0) same,
    v.counted name,
  );
}

-- A group is replaced by one with as many members.
pub regroup-IsValid :
    (routing : List (ℕ × RegisteredEndpoint)) (groups : GroupRegistry) (name : Name)
    {old : GroupLearn} (group : GroupLearn)
    → IsValid routing groups
    → Table.get name groups ≡ some old
    → group.members ≡ old.members
    → IsValid routing (Table.insert name group groups)
regroup-IsValid routing groups name {old = old} group v e same = record {
  unique = v.unique;
  counted = λ other. ground (
    arith,
    members-insert name other group groups,
    name_eq_iff name other,
    v.counted other,
    v.counted name,
    ap members_in e,
  );
}
