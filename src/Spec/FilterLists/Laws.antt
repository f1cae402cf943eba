-- ===== src/Spec/FilterLists/Laws.antt =====
-- What the parsers of filter values and identity values return, and which keys they take.
use mavlink_router_rs.Base.{
  ℕ, ◌≤◌, ◌≡◌, refl, Bool, true, ◌||◌, Option, none, some, List, Name, name_eq, arith, any,
}
use mavlink_router_rs.Base.Results.{ok, err, All, collect-All, OnOk, OnOk-intro}
use mavlink_router_rs.Base.Text.{split, split_once, trim}
use mavlink_router_rs.Base.Text.Decimal.{parse_unsigned-le}
use mavlink_router_rs.Endpoint.Filters.{Range, Filters, IdentityFlags, no_filters, plain}
use mavlink_router_rs.Spec.FilterLists.{
  u32_max, u8_max, Parsed, range_bounds, parse_range_pair_u32, msgid_entry, u8_entry,
  endpoint_name_entry, parse_msgid_ranges, parse_u8_ranges, parse_endpoint_name_list, filter_keys,
  apply_filter, identity_keys, apply_identity,
}
use mavlink_router_rs.Spec.Names.{name_matches_regex, validate_name_value}

-- The range is not empty and its bounds fit in the width.
abbrev pub IsRange : ℕ → Range → Type 0
IsRange limit range = (range.lo ≤ range.hi) × (range.hi ≤ limit)

abbrev pub IsName : Name → Type 0
IsName name = name_matches_regex name ≡ true

pub record IsValidFilters (f : Filters) : Type 0 where
  pub allow_msgid_in : All (IsRange u32_max) f.allow_msgid_in
  pub block_msgid_in : All (IsRange u32_max) f.block_msgid_in
  pub allow_msgid_out : All (IsRange u32_max) f.allow_msgid_out
  pub block_msgid_out : All (IsRange u32_max) f.block_msgid_out
  pub allow_src_sys_in : All (IsRange u8_max) f.allow_src_sys_in
  pub block_src_sys_in : All (IsRange u8_max) f.block_src_sys_in
  pub allow_src_sys_out : All (IsRange u8_max) f.allow_src_sys_out
  pub block_src_sys_out : All (IsRange u8_max) f.block_src_sys_out
  pub allow_src_comp_in : All (IsRange u8_max) f.allow_src_comp_in
  pub block_src_comp_in : All (IsRange u8_max) f.block_src_comp_in
  pub allow_src_comp_out : All (IsRange u8_max) f.allow_src_comp_out
  pub block_src_comp_out : All (IsRange u8_max) f.block_src_comp_out
  pub allow_src_endpoint_out : All IsName f.allow_src_endpoint_out
  pub block_src_endpoint_out : All IsName f.block_src_endpoint_out

range_bounds-le : (item key : Name) {lo hi : ℕ} → range_bounds item key ≡ ok (lo, hi) → hi ≤ u32_max
unfolding range_bounds
range_bounds-le item key {lo = lo} {hi = hi} h = go (split_once b'-' item) refl
  where
    go : (o : Option (Name × Name)) → split_once b'-' item ≡ o → hi ≤ u32_max
    go none e = ground (arith, rw (e, range_bounds) at h, parse_unsigned-le u32_max item {n = hi})
    go (some (lo_text, hi_text)) e =
        ground (arith, rw (e, range_bounds) at h, parse_unsigned-le u32_max (trim hi_text) {n = hi})

parse_range_pair_u32-IsRange :
    (item key : Name) {lo hi : ℕ}
    → parse_range_pair_u32 item key ≡ ok (lo, hi)
    → (lo ≤ hi) × (hi ≤ u32_max)
unfolding parse_range_pair_u32
parse_range_pair_u32-IsRange item key {lo = lo} {hi = hi} h =
    ground (arith, range_bounds-le item key {lo = lo} {hi = hi})

msgid_entry-IsRange :
    (value key item : Name) (range : Range)
    → msgid_entry value key item ≡ ok range
    → IsRange u32_max range
unfolding msgid_entry
msgid_entry-IsRange value key item range h =
    ground (arith, parse_range_pair_u32-IsRange (trim item) key {lo = range.lo} {hi = range.hi})

u8_entry-IsRange :
    (value key item : Name) (range : Range)
    → u8_entry value key item ≡ ok range
    → IsRange u8_max range
unfolding u8_entry
u8_entry-IsRange value key item range h =
    ground (arith, parse_range_pair_u32-IsRange (trim item) key {lo = range.lo} {hi = range.hi})

endpoint_name_entry-IsName :
    (value key item name : Name) → endpoint_name_entry value key item ≡ ok name → IsName name
unfolding endpoint_name_entry validate_name_value
endpoint_name_entry-IsName value key item name h = ground arith

parse_msgid_ranges-IsRange :
    (value key : Name) → OnOk (All (IsRange u32_max)) (parse_msgid_ranges value key)
unfolding parse_msgid_ranges
parse_msgid_ranges-IsRange value key = OnOk-intro _ (λ a e.
    collect-All (msgid_entry value key) (msgid_entry-IsRange value key) (split b',' value) e)

parse_u8_ranges-IsRange :
    (value key : Name) → OnOk (All (IsRange u8_max)) (parse_u8_ranges value key)
unfolding parse_u8_ranges
parse_u8_ranges-IsRange value key =
    OnOk-intro _
      (λ a e. collect-All (u8_entry value key) (u8_entry-IsRange value key) (split b',' value) e)

parse_endpoint_name_list-IsName :
    (value key : Name) → OnOk (All IsName) (parse_endpoint_name_list value key)
unfolding parse_endpoint_name_list
parse_endpoint_name_list-IsName value key = OnOk-intro _ (λ a e.
    collect-All (endpoint_name_entry value key) (endpoint_name_entry-IsName value key)
      (split b',' value) e)

-- Setting a key keeps the filters valid.
pub apply_filter-IsValid :
    (key value : Name) (f : Filters)
    → IsValidFilters f
    → OnOk (λ p. IsValidFilters p.0) (apply_filter key value f)
unfolding apply_filter
apply_filter-IsValid key value f v = ground (
  arith,
  parse_msgid_ranges-IsRange value key,
  parse_u8_ranges-IsRange value key,
  parse_endpoint_name_list-IsName value key,
)

no_filters-IsValid : IsValidFilters no_filters
no_filters-IsValid = record {
  allow_msgid_in = tt;
  block_msgid_in = tt;
  allow_msgid_out = tt;
  block_msgid_out = tt;
  allow_src_sys_in = tt;
  block_src_sys_in = tt;
  allow_src_sys_out = tt;
  block_src_sys_out = tt;
  allow_src_comp_in = tt;
  block_src_comp_in = tt;
  allow_src_comp_out = tt;
  block_src_comp_out = tt;
  allow_src_endpoint_out = tt;
  block_src_endpoint_out = tt;
}

abbrev pub IsGroup : Option Name → Type 0
IsGroup none = Unit
IsGroup (some name) = IsName name

pub record IsValidIdentity (flags : IdentityFlags) : Type 0 where
  pub filters : IsValidFilters flags.filters
  pub group : IsGroup flags.group

pub plain-IsValid : IsValidIdentity plain
plain-IsValid = record { filters = no_filters-IsValid; group = tt }

-- Setting a key keeps the identity valid.
pub apply_identity-IsValid :
    (key value : Name) (flags : IdentityFlags)
    → IsValidIdentity flags
    → OnOk (λ p. IsValidIdentity p.0) (apply_identity key value flags)
unfolding apply_identity validate_name_value
apply_identity-IsValid key value flags v =
    let filtered = apply_filter-IsValid key value flags.filters v.filters in ground arith

-- The key is taken, or its value is refused.
abbrev pub takes : {A : Type 0} → Parsed (A × Bool) → Bool
takes (ok (a, taken)) = taken
takes (err e) = true

abbrev pub is_among : Name → List Name → Bool
is_among key = any (name_eq key)

-- The keys that the filters take are the keys that `Filters::KEYS` lists.
pub takes-apply_filter :
    (key value : Name) (f : Filters) → takes (apply_filter key value f) ≡ is_among key filter_keys
unfolding apply_filter filter_keys
takes-apply_filter key value f = ground arith

pub takes-apply_identity :
    (key value : Name) (flags : IdentityFlags)
    → takes (apply_identity key value flags)
      ≡ (is_among key identity_keys || is_among key filter_keys)
unfolding apply_identity identity_keys
takes-apply_identity key value flags =
    let t = takes-apply_filter key value flags.filters in ground arith
