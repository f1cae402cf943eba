-- ===== src/Router/Group/Laws.antt =====
-- The members that a group registry counts.
use mavlink_router_rs.Base.{
  ℕ, ◌+◌, ◌-◌, ◌≡◌, refl, Option, none, some, arith, ◌==◌, if◌then◌else◌, Name, name_key, name_eq,
  name_eq_iff, Bool-cases, Option-cases, inl, inr,
}
use mavlink_router_rs.Base.Table
use mavlink_router_rs.Router.Group.{GroupLearn, GroupRegistry, entry, join, leave}
use mavlink_router_rs.Router.Learn
use mavlink_router_rs.Router.Learn.{LearnTable}

abbrev pub members_in : Option GroupLearn → ℕ
members_in none = 0
members_in (some group) = group.members

-- How many members a group has; none if it is not there.
abbrev pub members : Name → GroupRegistry → ℕ
members name registry = members_in (Table.get name registry)

-- The learn table that a group shares, if the group is there.
abbrev learn_in : Option GroupLearn → Option LearnTable
learn_in none = none
learn_in (some group) = some group.learn

abbrev pub shared_learn : Name → GroupRegistry → Option LearnTable
shared_learn name registry = learn_in (Table.get name registry)

abbrev pub learn_or_new : ℕ → Option LearnTable → LearnTable
learn_or_new capacity none = Learn.new capacity
learn_or_new capacity (some learn) = learn

pub members-insert :
    (name other : Name) (group : GroupLearn) (registry : GroupRegistry)
    → members other (Table.insert name group registry)
      ≡ (if name_eq name other then group.members else members other registry)
members-insert name other group registry =
    ground (arith, Table.get-insert name other group registry)

-- Joining a group adds one to its members, reports their number, and changes no other group; the
-- group keeps its learn table, which is a new one for the first member.
pub join_lem :
    (registry : GroupRegistry) (name other : Name) (capacity : ℕ)
    → (members other (join registry name capacity).0
        ≡ members other registry + (if name_eq name other then 1 else 0))
      × ((join registry name capacity).1 ≡ members name registry + 1)
      × (shared_learn other (join registry name capacity).0 ≡ (
          if name_eq name other
          then some (learn_or_new capacity (shared_learn name registry))
          else shared_learn other registry))
unfolding join entry
join_lem registry name other capacity = elim (Option-cases (Table.get name registry)) [
  | inl e ↦ (
    rw e (
        ground (
          arith,
          e,
          Table.get-insert name other (record { learn = Learn.new capacity; members = 1 }) registry,
          name_eq_iff name other,
        )),
    rw e refl,
    rw e (
        ground (
          arith,
          e,
          Table.get-insert name other (record { learn = Learn.new capacity; members = 1 }) registry,
          name_eq_iff name other,
        )),
  )
  | inr (group, e) ↦ (
    rw e (
        ground (
          arith,
          e,
          Table.get-insert name other (record group { members = group.members + 1 }) registry,
          name_eq_iff name other,
        )),
    rw e refl,
    rw e (
        ground (
          arith,
          e,
          Table.get-insert name other (record group { members = group.members + 1 }) registry,
          name_eq_iff name other,
        )),
  )
]

-- Leaving a group takes one from its members, and the group with its last member; no other group
-- changes, and a group that stays keeps its learn table.
pub leave_lem :
    (registry : GroupRegistry) (name other : Name)
    → (members other (leave registry name)
        ≡ members other registry - (if name_eq name other then 1 else 0))
      × (shared_learn other (leave registry name) ≡ (
          if name_eq name other
          then if members name registry - 1 == 0 then none else shared_learn other registry
          else shared_learn other registry))
unfolding leave
leave_lem registry name other = elim (Option-cases (Table.get name registry)) [
  | inl e ↦
      rw e (ground (arith, e, name_eq_iff name other), ground (arith, e, name_eq_iff name other))
  | inr (group, e) ↦ elim (Bool-cases (group.members - 1 == 0)) [
    | inl last ↦ rw e (
        rw last (
          ground (arith, e, Table.get-remove name other registry, name_eq_iff name other),
          ground (arith, e, Table.get-remove name other registry, name_eq_iff name other),
        ))
    | inr more ↦ rw e (
        rw more (
          ground (
            arith,
            e,
            Table.get-insert name other (record group { members = group.members - 1 }) registry,
            name_eq_iff name other,
          ),
          ground (
            arith,
            e,
            Table.get-insert name other (record group { members = group.members - 1 }) registry,
            name_eq_iff name other,
          ),
        ))
  ]
]
