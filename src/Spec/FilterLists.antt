-- ===== src/Spec/FilterLists.antt =====
-- The values of filter keys and of identity keys: the parsers of src/endpoint/filters.rs and
-- src/endpoint/identity_flags.rs.
pub mod Laws
use mavlink_router_rs.Base.{
  ℕ, ◌^◌, ◌-◌, Bool, true, false, ◌||◌, Option, none, some, List, [], ◌∷◌, ◌++◌, map, ltb,
  if◌then◌else◌, Name, name_eq,
}
use mavlink_router_rs.Base.Results.{Result, ok, err, ◌>>=◌, ◌>>◌, ok_or, collect}
use mavlink_router_rs.Base.Text.{text, split, split_once, trim}
use mavlink_router_rs.Base.Text.Decimal.{parse_unsigned}
use mavlink_router_rs.Endpoint.Filters.{Range, Filters, IdentityFlags, is_empty}
use mavlink_router_rs.Spec.Error.{
  SpecError, invalid_query_value, ValueReason, empty_entry, bad_lower_bound, bad_upper_bound,
  not_integer_or_range, out_of_u8_range, not_bool, lo_above_hi,
}
use mavlink_router_rs.Spec.Names.{validate_name_value}

abbrev pub u32_max : ℕ
u32_max = 2 ^ 32 - 1

abbrev pub u8_max : ℕ
u8_max = 2 ^ 8 - 1

abbrev pub Parsed : Type 0 → Type 0
Parsed = Result SpecError

-- The bounds of a range, before they are compared.
unfoldable range_bounds : (item key : Name) → Parsed (ℕ × ℕ)
range_bounds item key = elim (split_once b'-' item) [
  | some (lo_text, hi_text) ↦ do
    lo ←
        ok_or (parse_unsigned u32_max (trim lo_text))
          (invalid_query_value key (bad_lower_bound lo_text))
    hi ←
        ok_or (parse_unsigned u32_max (trim hi_text))
          (invalid_query_value key (bad_upper_bound hi_text))
    ok (lo, hi)
  | none ↦ do
    value ←
        ok_or (parse_unsigned u32_max item) (invalid_query_value key (not_integer_or_range item))
    ok (value, value)
]

unfoldable pub parse_range_pair_u32 : (item key : Name) → Parsed (ℕ × ℕ)
unfolding range_bounds
parse_range_pair_u32 item key = do
  bounds ← range_bounds item key
  if ltb bounds.1 bounds.0
      then err (invalid_query_value key (lo_above_hi bounds.0 bounds.1))
      else ok bounds

-- The bodies of the three loops over the entries of a list.
unfoldable pub msgid_entry : (value key item : Name) → Parsed Range
msgid_entry value key raw =
    let item = trim raw in
    if is_empty item
    then err (invalid_query_value key (empty_entry value))
    else do bounds ← parse_range_pair_u32 item key; ok (record { lo = bounds.0; hi = bounds.1 })

unfoldable pub u8_entry : (value key item : Name) → Parsed Range
u8_entry value key raw =
    let item = trim raw in
    if is_empty item then err (invalid_query_value key (empty_entry value)) else do
      bounds ← parse_range_pair_u32 item key
      if ltb u8_max bounds.0 || ltb u8_max bounds.1
          then err (invalid_query_value key (out_of_u8_range item))
          else ok (record { lo = bounds.0; hi = bounds.1 })

unfoldable pub endpoint_name_entry : (value key item : Name) → Parsed Name
endpoint_name_entry value key raw =
    let item = trim raw in
    if is_empty item
    then err (invalid_query_value key (empty_entry value))
    else (validate_name_value item key >> ok item)

unfoldable pub parse_msgid_ranges : (value key : Name) → Parsed (List Range)
parse_msgid_ranges value key = collect (msgid_entry value key) (split b',' value)

unfoldable pub parse_u8_ranges : (value key : Name) → Parsed (List Range)
parse_u8_ranges value key = collect (u8_entry value key) (split b',' value)

unfoldable pub parse_endpoint_name_list : (value key : Name) → Parsed (List Name)
parse_endpoint_name_list value key = collect (endpoint_name_entry value key) (split b',' value)

unfoldable pub parse_bool : (value key : Name) → Parsed Bool
parse_bool value key =
    if name_eq value (text "true")
    then ok true
    else if name_eq value (text "false")
    then ok false
    else err (invalid_query_value key (not_bool value))

-- `self.field = parsed?; Ok(true)`.
abbrev pub assign {ℓ} : {A : Type ℓ} {B : Type 0} → Result SpecError A → (A → B) → Parsed (B × Bool)
assign parsed set = do a ← parsed; ok (set a, true)

-- `Filters::KEYS`.
unfoldable pub filter_keys : List Name
filter_keys =
    text "allow_msgid_in"
    ∷ text "allow_msgid_out"
    ∷ text "allow_src_comp_in"
    ∷ text "allow_src_comp_out"
    ∷ text "allow_src_endpoint_out"
    ∷ text "allow_src_sys_in"
    ∷ text "allow_src_sys_out"
    ∷ text "block_msgid_in"
    ∷ text "block_msgid_out"
    ∷ text "block_src_comp_in"
    ∷ text "block_src_comp_out"
    ∷ text "block_src_endpoint_out"
    ∷ text "block_src_sys_in"
    ∷ text "block_src_sys_out"
    ∷ []

-- `Filters::apply`: the filters with the key's list set, and whether the key is one of theirs.
unfoldable pub apply_filter : (key value : Name) → Filters → Parsed (Filters × Bool)
apply_filter key value f =
    if name_eq key (text "allow_msgid_in")
    then assign (parse_msgid_ranges value key) (λ list. record f { allow_msgid_in = list })
    else if name_eq key (text "block_msgid_in")
    then assign (parse_msgid_ranges value key) (λ list. record f { block_msgid_in = list })
    else if name_eq key (text "allow_msgid_out")
    then assign (parse_msgid_ranges value key) (λ list. record f { allow_msgid_out = list })
    else if name_eq key (text "block_msgid_out")
    then assign (parse_msgid_ranges value key) (λ list. record f { block_msgid_out = list })
    else if name_eq key (text "allow_src_sys_in")
    then assign (parse_u8_ranges value key) (λ list. record f { allow_src_sys_in = list })
    else if name_eq key (text "block_src_sys_in")
    then assign (parse_u8_ranges value key) (λ list. record f { block_src_sys_in = list })
    else if name_eq key (text "allow_src_sys_out")
    then assign (parse_u8_ranges value key) (λ list. record f { allow_src_sys_out = list })
    else if name_eq key (text "block_src_sys_out")
    then assign (parse_u8_ranges value key) (λ list. record f { block_src_sys_out = list })
    else if name_eq key (text "allow_src_comp_in")
    then assign (parse_u8_ranges value key) (λ list. record f { allow_src_comp_in = list })
    else if name_eq key (text "block_src_comp_in")
    then assign (parse_u8_ranges value key) (λ list. record f { block_src_comp_in = list })
    else if name_eq key (text "allow_src_comp_out")
    then assign (parse_u8_ranges value key) (λ list. record f { allow_src_comp_out = list })
    else if name_eq key (text "block_src_comp_out")
    then assign (parse_u8_ranges value key) (λ list. record f { block_src_comp_out = list })
    else if name_eq key (text "allow_src_endpoint_out")
    then assign (parse_endpoint_name_list value key)
        (λ list. record f { allow_src_endpoint_out = list })
    else if name_eq key (text "block_src_endpoint_out")
    then assign (parse_endpoint_name_list value key)
        (λ list. record f { block_src_endpoint_out = list })
    else ok (f, false)

-- `IdentityFlags::KEYS`.
unfoldable pub identity_keys : List Name
identity_keys = text "group" ∷ text "sniffer" ∷ []

-- `IdentityFlags::apply`.
unfoldable pub apply_identity : (key value : Name) → IdentityFlags → Parsed (IdentityFlags × Bool)
apply_identity key value flags = do
  filtered ← apply_filter key value flags.filters
  if filtered.1
      then ok (record flags { filters = filtered.0 }, true)
      else if name_eq key (text "sniffer")
      then assign (parse_bool value key) (λ sniffer. record flags { sniffer = sniffer })
      else if name_eq key (text "group")
      then assign (validate_name_value value key) (λ valid. record flags { group = some value })
      else ok (flags, false)

-- `Filters::src_endpoint_out_entries`: the axis and the name of each entry.
unfoldable pub src_endpoint_out_entries : Filters → List (Name × Name)
src_endpoint_out_entries f =
    map (λ entry. (text "allow_src_endpoint_out", entry)) f.allow_src_endpoint_out
    ++ map (λ entry. (text "block_src_endpoint_out", entry)) f.block_src_endpoint_out
