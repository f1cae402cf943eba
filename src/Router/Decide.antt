-- ===== src/Router/Decide.antt =====
-- The decision for one destination: src/router/decide.rs.
pub mod Laws
use mavlink_router_rs.Base.{
  ℕ, Bool, true, false, not, Option, none, some, ◌==◌, if◌then◌else◌, Name,
}
use mavlink_router_rs.Endpoint.Filters.{IdentityFlags, passes_out_filter}
use mavlink_router_rs.Mavlink.Frame.{NodeId, ParsedHeader}
use mavlink_router_rs.Router.Learn.{LearnTable, contains, contains_sys}

pub data Decision : Type 0 where
  admit loop_blocked out_filter_blocked target_mismatch : Decision

-- The match on the target component, for a target system that is set and is not 0.
unfoldable pub component_match : LearnTable → ℕ → Option ℕ → Bool
component_match learn target_sys none = contains_sys learn target_sys
component_match learn target_sys (some comp) =
    if comp == 0
    then contains_sys learn target_sys
    else contains learn (record { sys = target_sys; comp = comp })

unfoldable pub system_match : LearnTable → Option ℕ → Option ℕ → Bool
unfolding component_match
system_match learn none target_component = true
system_match learn (some target_sys) target_component =
    if target_sys == 0 then true else component_match learn target_sys target_component

unfoldable pub target_match : ParsedHeader → LearnTable → Bool
unfolding system_match
target_match header learn = system_match learn header.target_system header.target_component

unfoldable pub decide : ParsedHeader → LearnTable → IdentityFlags → Name → Decision
decide header dest_learn dest_identity src_endpoint_name =
    if dest_identity.sniffer
    then admit
    else if contains dest_learn header.source
    then loop_blocked
    else if not
        (passes_out_filter dest_identity.filters header.msgid header.source src_endpoint_name)
    then out_filter_blocked
    else if not (target_match header dest_learn)
    then target_mismatch
    else admit
