-- ===== src/Router/Group.antt =====
-- The registry of endpoint groups: src/router/group.rs.
pub mod Laws
use mavlink_router_rs.Base.{
  ℕ, suc, ◌+◌, ◌-◌, Option, none, some, List, [], ◌==◌, if◌then◌else◌, Name, name_key,
}
use mavlink_router_rs.Base.Table
use mavlink_router_rs.Router.Learn
use mavlink_router_rs.Router.Learn.{LearnTable}

pub record GroupLearn : Type 0 where
  pub learn : LearnTable
  pub members : ℕ

abbrev pub GroupRegistry : Type 0
GroupRegistry = List (Name × GroupLearn)

abbrev pub new : GroupRegistry
new = []

-- The entry of a group, created for its first member.
unfoldable pub entry : ℕ → Option GroupLearn → GroupLearn
entry capacity none = record { learn = Learn.new capacity; members = 0 }
entry capacity (some group) = group

-- The registry with one more member of `name`, and the number of members then.
unfoldable pub join : GroupRegistry → Name → ℕ → GroupRegistry × ℕ
unfolding entry
join registry name capacity =
    let group = entry capacity (Table.get name registry) in
    let members = group.members + 1 in
    (Table.insert name (record group { members = members }) registry, members)

-- The registry with one member of `name` less; the last takes the group with it.
unfoldable pub leave : GroupRegistry → Name → GroupRegistry
leave registry name = elim (Table.get name registry) [
  | none ↦ registry
  | some group ↦
      let members = group.members - 1 in
      if members == 0
      then Table.remove name registry
      else Table.insert name (record group { members = members }) registry
]
