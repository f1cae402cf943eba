-- ===== src/Config/Tests.antt =====
-- Merges and tables on concrete configurations.
use mavlink_router_rs.Base.{
  ◌≤◌, ℕ, ◌≡◌, refl, true, Option, none, some, [], ◌∷◌, Name, name_eq, length, ◌-◌, arith,
}
use mavlink_router_rs.Base.Entries.{find}
use mavlink_router_rs.Base.Results.{ok, err}
use mavlink_router_rs.Base.Text.{text, split_once, strip_prefix, is_ascii_alphanumeric}
use mavlink_router_rs.Base.Text.Decimal.{parse_unsigned, show_unsigned}
use mavlink_router_rs.Config.Merge.{
  names, duplicate_name, MergeOutcome, CliConfig, TomlConfig, no_toml, check_unique_names, validate,
  validate_endpoint_references, merge_endpoints, resolved, merge_sources, merge, unseen_names,
  split_overridden, known_references, known_entries,
}
use mavlink_router_rs.Config.Merge.Laws.{
  IsValidConfig, merge-IsValidConfig, lookup-merge, merge-duplicate_name, merge_succeeds,
}
use mavlink_router_rs.Config.Merge.Names.{count, lookup, DistinctNames}
use mavlink_router_rs.Config.Toml.{
  TomlEndpoint, into_spec, scheme_from_toml_type, reject_disallowed_fields, reject_fields,
  provided_fields, allowed_fields, synthesize_body, host_port_body, collect_pairs,
}
use mavlink_router_rs.Config.Toml.Laws.{Declares, into_spec-Declares}
use mavlink_router_rs.Endpoint.Filters.{plain}
use mavlink_router_rs.Spec.Address.{IpAddr}
use mavlink_router_rs.Spec.Build.{EndpointSpec, build, parse_kind, spec_name}
use mavlink_router_rs.Spec.Body.{parse_host_port, host_and_port, bracketed}
use mavlink_router_rs.Spec.Names.{validate_name, name_matches_regex, is_name_char}
use mavlink_router_rs.Spec.Query.{apply_pairs}
use mavlink_router_rs.Spec.Error.{try_from_str}
use mavlink_router_rs.Spec.FilterLists.{src_endpoint_out_entries}
use mavlink_router_rs.Spec.Kinds.{tcp_client_kind, scheme_of, identity_of}

-- A client of a name and a port.
abbrev client : Name → ℕ → EndpointSpec
client name port = record {
  kind = tcp_client_kind (record { host = text "gcs"; port = port; identity = plain });
  name = name;
}

-- The file has `a` and `b`, the command line another `b`.
abbrev file : TomlConfig
file = record no_toml { endpoints = client (text "a") 1 ∷ client (text "b") 2 ∷ [] }

abbrev args : CliConfig
args = record {
  log_level = none;
  log_format = none;
  stats = some true;
  stats_interval_secs = none;
  dedup_ms = some 50;
  skip_config_log = none;
  endpoints = client (text "b") 3 ∷ [];
}

abbrev outcome : MergeOutcome
outcome = record { config = resolved file args; overridden_names = text "b" ∷ [] }

merged : merge (some file) args ≡ ok outcome
unfolding merge merge_sources validate check_unique_names validate_endpoint_references
    merge_endpoints name_eq resolved unseen_names split_overridden known_references known_entries
    src_endpoint_out_entries identity_of
merged = refl

merge-IsValidConfig_example : IsValidConfig outcome.config
merge-IsValidConfig_example = merge-IsValidConfig (some file) args merged

lookup-merge_example :
    lookup (text "b") outcome.config.endpoints
    ≡ elim (lookup (text "b") args.endpoints) as (λ _. Option EndpointSpec) [
      | some e ↦ some e
      | none ↦ lookup (text "b") file.endpoints
    ]
lookup-merge_example = lookup-merge file args (text "b") merged

-- Two endpoints of the file have the name `b`.
abbrev twice : TomlConfig
twice = record no_toml { endpoints = client (text "b") 1 ∷ client (text "b") 2 ∷ [] }

twice_named : ¬ DistinctNames twice.endpoints
unfolding find name_eq
twice_named d = cc (d.0)

merge-duplicate_name_example :
    (name : Name) × (merge (some twice) args ≡ err (duplicate_name name))
    × 2 ≤ count name (names twice.endpoints)
merge-duplicate_name_example = merge-duplicate_name twice args twice_named

merge_succeeds_example : (o : MergeOutcome) × (merge (some file) args ≡ ok o)
unfolding find name_eq resolved merge_endpoints split_overridden src_endpoint_out_entries
    identity_of
merge_succeeds_example =
    merge_succeeds file args (refl, (refl, tt)) (refl, tt) (omega arith) (omega arith)
      (tt, (tt, tt))

abbrev distance : Name → Name → ℕ
distance a b = length a - length b

abbrev no_ip : Name → Option IpAddr
no_ip s = none

abbrev show_none : IpAddr → Name
show_none ip = text "0.0.0.0"

-- A table for a host whose address is of IPv6.
abbrev table : TomlEndpoint
table = record {
  scheme = text "tcpc";
  path = none;
  baud = none;
  flow_control = none;
  bind = none;
  host = some (text "::1");
  port = some 5760;
  idle_secs = none;
  latch_idle_secs = none;
  sniffer = none;
  group = none;
  allow_msgid_in = none;
  block_msgid_in = none;
  allow_msgid_out = none;
  block_msgid_out = none;
  allow_src_sys_in = none;
  block_src_sys_in = none;
  allow_src_sys_out = none;
  block_src_sys_out = none;
  allow_src_comp_in = none;
  block_src_comp_in = none;
  allow_src_comp_out = none;
  block_src_comp_out = none;
  allow_src_endpoint_out = none;
  block_src_endpoint_out = none;
}

abbrev table_spec : EndpointSpec
table_spec = record {
  kind = tcp_client_kind (record { host = text "::1"; port = 5760; identity = plain });
  name = text "up";
}

table_read : into_spec distance no_ip show_none (text "up") table ≡ ok table_spec
unfolding into_spec scheme_from_toml_type try_from_str name_eq reject_disallowed_fields
    reject_fields provided_fields allowed_fields synthesize_body host_port_body collect_pairs build
    parse_kind parse_host_port host_and_port strip_prefix bracketed split_once parse_unsigned
    show_unsigned apply_pairs spec_name validate_name name_matches_regex is_name_char
    is_ascii_alphanumeric
table_read = refl

into_spec-Declares_example :
    (try_from_str table.scheme ≡ some (scheme_of table_spec.kind))
    × (table_spec.name ≡ text "up")
    × Declares no_ip table table_spec.kind
unfolding strip_prefix
into_spec-Declares_example =
    into_spec-Declares distance no_ip show_none (text "up") table
      (record { baud_bounded = tt; port_bounded = omega arith }) (refl, refl) table_read
