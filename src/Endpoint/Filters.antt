-- ===== src/Endpoint/Filters.antt =====
-- Filter rules and the identity of an endpoint: src/endpoint/filters.rs and the record of
-- src/endpoint/identity_flags.rs. The two range types of the source differ in their width alone.
pub mod Laws
use mavlink_router_rs.Base.{
  ℕ, Bool, true, false, not, ◌&&◌, Option, none, List, [], ◌∷◌, any, leb, if◌then◌else◌, Name,
  name_eq,
}
use mavlink_router_rs.Mavlink.Frame.{NodeId}

-- `MsgIdRange` and `U8Range`.
pub record Range : Type 0 where
  pub lo : ℕ
  pub hi : ℕ

unfoldable single : ℕ → Range
single value = record { lo = value; hi = value }

unfoldable pub range_contains : Range → ℕ → Bool
range_contains range value = leb range.lo value && leb value range.hi

pub record Filters : Type 0 where
  pub allow_msgid_in : List Range
  pub block_msgid_in : List Range
  pub allow_msgid_out : List Range
  pub block_msgid_out : List Range
  pub allow_src_sys_in : List Range
  pub block_src_sys_in : List Range
  pub allow_src_sys_out : List Range
  pub block_src_sys_out : List Range
  pub allow_src_comp_in : List Range
  pub block_src_comp_in : List Range
  pub allow_src_comp_out : List Range
  pub block_src_comp_out : List Range
  pub allow_src_endpoint_out : List Name
  pub block_src_endpoint_out : List Name

-- `Filters::default`.
abbrev pub no_filters : Filters
no_filters = record {
  allow_msgid_in = [];
  block_msgid_in = [];
  allow_msgid_out = [];
  block_msgid_out = [];
  allow_src_sys_in = [];
  block_src_sys_in = [];
  allow_src_sys_out = [];
  block_src_sys_out = [];
  allow_src_comp_in = [];
  block_src_comp_in = [];
  allow_src_comp_out = [];
  block_src_comp_out = [];
  allow_src_endpoint_out = [];
  block_src_endpoint_out = [];
}

abbrev pub is_empty {ℓ} : {A : Type ℓ} → List A → Bool
is_empty [] = true
is_empty (x ∷ xs) = false

-- `pass_msgid_axis` and `pass_u8_axis`.
unfoldable pub pass_range_axis : ℕ → List Range → List Range → Bool
pass_range_axis value allow block =
    if not (is_empty allow) && not (any (λ range. range_contains range value) allow)
    then false
    else not (any (λ range. range_contains range value) block)

unfoldable pub pass_src_endpoint_axis : Name → List Name → List Name → Bool
pass_src_endpoint_axis name allow block =
    if not (is_empty allow) && not (any (λ entry. name_eq entry name) allow)
    then false
    else not (any (λ entry. name_eq entry name) block)

unfoldable pub passes_in_filter : Filters → ℕ → NodeId → Bool
passes_in_filter filters msgid src =
    pass_range_axis msgid filters.allow_msgid_in filters.block_msgid_in
    && (pass_range_axis src.sys filters.allow_src_sys_in filters.block_src_sys_in
        && pass_range_axis src.comp filters.allow_src_comp_in filters.block_src_comp_in)

unfoldable pub passes_out_filter : Filters → ℕ → NodeId → Name → Bool
passes_out_filter filters msgid src src_endpoint_name =
    pass_range_axis msgid filters.allow_msgid_out filters.block_msgid_out
    && (pass_range_axis src.sys filters.allow_src_sys_out filters.block_src_sys_out
        && (pass_range_axis src.comp filters.allow_src_comp_out filters.block_src_comp_out
            && pass_src_endpoint_axis src_endpoint_name filters.allow_src_endpoint_out
                filters.block_src_endpoint_out))

-- The policy bundle of an endpoint.
pub record IdentityFlags : Type 0 where
  pub filters : Filters
  pub sniffer : Bool
  pub group : Option Name

-- `IdentityFlags::default`.
abbrev pub plain : IdentityFlags
plain = record { filters = no_filters; sniffer = false; group = none }
