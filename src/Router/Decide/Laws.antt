-- ===== src/Router/Decide/Laws.antt =====
-- When a destination takes a frame.
use mavlink_router_rs.Base.{
  ℕ, ◌≡◌, refl, ap, subst, true, false, ◌||◌, Option, none, some, List, [], ◌∷◌, ◌⊎◌, ◌↔◌, inl, inr,
  any, arith, ◌==◌, ==_iff, Bool-cases, Name,
}
use mavlink_router_rs.Base.Entries.{find}
use mavlink_router_rs.Endpoint.Filters.{IdentityFlags, passes_out_filter}
use mavlink_router_rs.Mavlink.Frame.{NodeId, ParsedHeader, node_beq, node_beq_iff}
use mavlink_router_rs.Router.Decide.{admit, component_match, system_match, target_match, decide}
use mavlink_router_rs.Router.Learn.{LearnEntry, LearnTable, contains, contains_sys}

-- A node is covered by a target: the system is its own, and so is the component unless the target
-- leaves it open.
pub record Covers (target_sys : ℕ) (target_component : Option ℕ) (node : NodeId) : Type 0 where
  pub system : node.sys ≡ target_sys
  pub component :
      (target_component ≡ none)
      ⊎ ((target_component ≡ some 0) ⊎ (target_component ≡ some node.comp))

-- A frame is meant for an endpoint: it has no target system or the target system 0, or its target
-- covers a node that the endpoint has learned.
abbrev pub IsMeantFor : Option ℕ → Option ℕ → LearnTable → Type 0
IsMeantFor none target_component learn = Unit
IsMeantFor (some target_sys) target_component learn =
    (target_sys ≡ 0)
    ⊎ ((node : NodeId) × (contains learn node ≡ true) × Covers target_sys target_component node)

contains-cons :
    (x : LearnEntry) (xs : List LearnEntry) (capacity : ℕ) (node : NodeId)
    → contains (record { entries = x ∷ xs; capacity = capacity }) node
      ≡ (node_beq x.node node || contains (record { entries = xs; capacity = capacity }) node)
unfolding contains find
contains-cons x xs capacity node = ground arith

-- A system is in the table exactly if some node of it is.
contains_sys→node :
    (xs : List LearnEntry) (sys capacity : ℕ)
    → any (λ entry. entry.node.sys == sys) xs ≡ true
    → (node : NodeId) × (contains (record { entries = xs; capacity = capacity }) node ≡ true)
      × (node.sys ≡ sys)
contains_sys→node [] sys capacity h = absurd (cc)
contains_sys→node (x ∷ xs) sys capacity h = elim (Bool-cases (x.node.sys == sys)) [
  | inl hit ↦ (
    x.node,
    rw (contains-cons x xs capacity x.node, (node_beq_iff x.node x.node).1 refl) refl,
    (==_iff x.node.sys sys).0 hit,
  )
  | inr miss ↦
      let (node, held, same) = contains_sys→node xs sys capacity (rw miss at h) in
      (node, ground (arith, held, contains-cons x xs capacity node), same)
]

node→contains_sys :
    (xs : List LearnEntry) (capacity : ℕ) (node : NodeId)
    → contains (record { entries = xs; capacity = capacity }) node ≡ true
    → any (λ entry. entry.node.sys == node.sys) xs ≡ true
unfolding contains find
node→contains_sys [] capacity node h = absurd (cc)
node→contains_sys (x ∷ xs) capacity node h =
    ground (arith, node→contains_sys xs capacity node, node_beq_iff x.node node)

contains_sys_iff :
    (learn : LearnTable) (sys : ℕ)
    → (contains_sys learn sys ≡ true)
      ↔ ((node : NodeId) × (contains learn node ≡ true) × (node.sys ≡ sys))
unfolding contains_sys
contains_sys_iff learn sys = (
  contains_sys→node learn.entries sys learn.capacity,
  λ (node, held, same).
      subst (λ s. any (λ entry. entry.node.sys == s) learn.entries ≡ true) same
        (node→contains_sys learn.entries learn.capacity node held),
)

-- Some learned node is covered by the target.
abbrev Reaches : ℕ → Option ℕ → LearnTable → Type 0
Reaches target_sys target_component learn =
    (node : NodeId) × (contains learn node ≡ true) × Covers target_sys target_component node

module _ (learn : LearnTable) (target_sys : ℕ) where
  any_component :
      (target_component : Option ℕ)
      → (target_component ≡ none) ⊎ (target_component ≡ some 0)
      → (contains_sys learn target_sys ≡ true) ↔ Reaches target_sys target_component learn
  any_component target_component left_open = (
    λ h.
        let (node, held, same) = (contains_sys_iff learn target_sys).0 h in
        (node, held, record { system = same; component = go left_open node }),
    λ (node, held, covers). (contains_sys_iff learn target_sys).1 (node, held, covers.system),
  )
    where
      go :
          (target_component ≡ none) ⊎ (target_component ≡ some 0)
          → (node : NodeId)
          → (target_component ≡ none)
            ⊎ ((target_component ≡ some 0) ⊎ (target_component ≡ some node.comp))
      go (inl e) node = inl e
      go (inr e) node = inr (inl e)

  one_component→ :
      (comp : ℕ)
      → contains learn (record { sys = target_sys; comp = comp }) ≡ true
      → Reaches target_sys (some comp) learn
  one_component→ comp h = (_, h, record { system = refl; component = inr (inr refl) })

  →one_component :
      (comp : ℕ)
      → (comp == 0) ≡ false
      → Reaches target_sys (some comp) learn
      → contains learn (record { sys = target_sys; comp = comp }) ≡ true
  →one_component comp other (node, held, covers) = go covers.component
    where
      at :
          some comp ≡ some node.comp
          → contains learn (record { sys = target_sys; comp = comp }) ≡ true
      at e = let same : comp ≡ node.comp = cc in rw (same, ← covers.system) held

      go :
          (some comp ≡ none) ⊎ ((some comp ≡ some 0) ⊎ (some comp ≡ some node.comp))
          → contains learn (record { sys = target_sys; comp = comp }) ≡ true
      go (inl e) = absurd (cc)
      go (inr (inl e)) = absurd (ground arith)
      go (inr (inr e)) = at e

  component_match_iff :
      (target_component : Option ℕ)
      → (component_match learn target_sys target_component ≡ true)
        ↔ Reaches target_sys target_component learn
  unfolding component_match
  component_match_iff none = any_component none (inl refl)
  component_match_iff (some comp) = elim (Bool-cases (comp == 0)) [
    | inl zero_comp ↦
        rw zero_comp (any_component (some comp) (inr (ap some ((==_iff comp 0).0 zero_comp))))
    | inr other ↦ rw other (one_component→ comp, →one_component comp other)
  ]

system_match_iff :
    (learn : LearnTable) (target_system target_component : Option ℕ)
    → (system_match learn target_system target_component ≡ true)
      ↔ IsMeantFor target_system target_component learn
unfolding system_match
system_match_iff learn none target_component = (λ h. tt, λ h. refl)
system_match_iff learn (some target_sys) target_component = elim (Bool-cases (target_sys == 0)) [
  | inl broadcast ↦ rw broadcast (λ h. inl ((==_iff target_sys 0).0 broadcast), λ h. refl)
  | inr other ↦
      rw other (λ h. inr ((component_match_iff learn target_sys target_component).0 h), from other)
]
  where
    from :
        (target_sys == 0) ≡ false
        → IsMeantFor (some target_sys) target_component learn
        → component_match learn target_sys target_component ≡ true
    from other (inl zero_sys) = absurd (ground arith)
    from other (inr reached) = (component_match_iff learn target_sys target_component).1 reached

-- A frame matches an endpoint exactly if it has no target system, or the target system 0, or the
-- endpoint has learned a node of the target system, whose component is the target's unless the
-- target has no component or the component 0.
pub target_match_iff :
    (header : ParsedHeader) (learn : LearnTable)
    → (target_match header learn ≡ true)
      ↔ IsMeantFor header.target_system header.target_component learn
unfolding target_match
target_match_iff header learn = system_match_iff learn header.target_system header.target_component

-- What an endpoint that is no sniffer asks of a frame.
pub record IsWanted (header : ParsedHeader) (learn : LearnTable) (identity : IdentityFlags)
    (name : Name) : Type 0 where
  pub elsewhere : contains learn header.source ≡ false
  pub passes : passes_out_filter identity.filters header.msgid header.source name ≡ true
  pub meant : IsMeantFor header.target_system header.target_component learn

-- A frame is admitted to a destination exactly if the destination is a sniffer, or has not learned
-- the frame's source, lets the frame through its out-filter, and is meant by the frame's target.
pub decide-admit_iff :
    (header : ParsedHeader) (learn : LearnTable) (identity : IdentityFlags) (name : Name)
    → (decide header learn identity name ≡ admit)
      ↔ ((identity.sniffer ≡ true) ⊎ IsWanted header learn identity name)
unfolding decide
decide-admit_iff header learn identity name = (
  λ h. elim (Bool-cases identity.sniffer) [
    | inl sniffs ↦ inl sniffs
    | inr plain_one ↦ inr (record {
      elsewhere = ground arith;
      passes = ground arith;
      meant = (target_match_iff header learn).0 (ground arith);
    })
  ],
  λ wanted. go wanted,
)
  where
    go :
        (identity.sniffer ≡ true) ⊎ IsWanted header learn identity name
        → decide header learn identity name ≡ admit
    go (inl sniffs) = rw sniffs refl
    go (inr wanted) =
        ground
          (arith, wanted.elsewhere, wanted.passes, (target_match_iff header learn).1 wanted.meant)
