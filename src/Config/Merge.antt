-- ===== src/Config/Merge.antt =====
-- The resolved configuration and how the two sources are merged into it: src/config.rs, the
-- errors of src/error.rs, and the sources' own types in src/parsers.
pub mod Names
pub mod Laws
use mavlink_router_rs.Base.{
  ℕ, Bool, true, false, not, ◌&&◌, ◌||◌, Option, none, some, List, [], ◌∷◌, ◌++◌, map, ltb, any,
  if◌then◌else◌, Name, name_eq,
}
use mavlink_router_rs.Base.Results.{Result, ok, err, ◌>>=◌, ◌>>◌}
use mavlink_router_rs.Endpoint.Filters.{is_empty, IdentityFlags}
use mavlink_router_rs.Router.Learn.{is_some}
use mavlink_router_rs.Spec.Build.{EndpointSpec}
use mavlink_router_rs.Spec.Error.{SpecError, Scheme}
use mavlink_router_rs.Spec.FilterLists.{src_endpoint_out_entries}
use mavlink_router_rs.Spec.Kinds.{identity_of}

pub data LogLevel : Type 0 where
  trace debug info warn error : LogLevel

pub data LogFormat : Type 0 where
  text_format json_format : LogFormat

-- The formats of the messages of `ConfigSchema`.
pub data SchemaReason : Type 0 where
  field_not_valid : (field : Name) (scheme : Scheme) (allowed : List Name) → SchemaReason
  requires_field : (scheme : Scheme) (field : Name) → SchemaReason
  unknown_type : (raw : Name) → SchemaReason

-- The errors of the configuration. An error of the TOML crate is a number.
pub data Error : Type 0 where
  duplicate_name : Name → Error
  filter_references_unknown_endpoint : (endpoint_name axis referenced_name : Name) → Error
  dedup_ms_too_large stats_interval_too_small : (requested limit : ℕ) → Error
  spec_in_arg : (index : ℕ) (arg : Name) → SpecError → Error
  spec_in_toml : (name : Name) → SpecError → Error
  config_schema : (name : Name) → SchemaReason → Error
  config_parse : ℕ → Error

abbrev pub default_stats_interval_secs : ℕ
default_stats_interval_secs = 5

abbrev pub min_stats_interval_secs : ℕ
min_stats_interval_secs = 1

abbrev pub default_dedup_ms : ℕ
default_dedup_ms = 0

abbrev pub max_dedup_ms : ℕ
max_dedup_ms = 10000

pub record Config : Type 0 where
  pub log_level : LogLevel
  pub log_format : LogFormat
  pub stats : Bool
  pub stats_interval_secs : ℕ
  pub dedup_ms : ℕ
  pub skip_config_log : Bool
  pub endpoints : List EndpointSpec
  pub merged : Bool

pub record MergeOutcome : Type 0 where
  pub config : Config
  pub overridden_names : List Name

-- What the command line gives.
pub record CliConfig : Type 0 where
  pub log_level : Option LogLevel
  pub log_format : Option LogFormat
  pub stats : Option Bool
  pub stats_interval_secs : Option ℕ
  pub dedup_ms : Option ℕ
  pub skip_config_log : Option Bool
  pub endpoints : List EndpointSpec

-- What the file gives.
pub record TomlConfig : Type 0 where
  pub log_level : Option LogLevel
  pub log_format : Option LogFormat
  pub stats : Option Bool
  pub stats_interval_secs : Option ℕ
  pub dedup_ms : Option ℕ
  pub skip_config_log : Option Bool
  pub endpoints : List EndpointSpec

-- `TomlConfig::default`.
abbrev pub no_toml : TomlConfig
no_toml = record {
  log_level = none;
  log_format = none;
  stats = none;
  stats_interval_secs = none;
  dedup_ms = none;
  skip_config_log = none;
  endpoints = [];
}

-- `CliConfig::has_values`.
unfoldable pub cli_has_values : CliConfig → Bool
cli_has_values c =
    is_some c.log_level
    || (is_some c.log_format
        || (is_some c.stats
            || (is_some c.stats_interval_secs
                || (is_some c.dedup_ms
                    || (is_some c.skip_config_log || not (is_empty c.endpoints))))))

-- `TomlConfig::has_values`.
unfoldable pub toml_has_values : TomlConfig → Bool
toml_has_values c =
    is_some c.log_level
    || (is_some c.log_format
        || (is_some c.stats
            || (is_some c.stats_interval_secs
                || (is_some c.dedup_ms
                    || (is_some c.skip_config_log || not (is_empty c.endpoints))))))

abbrev pub names : List EndpointSpec → List Name
names = map (λ endpoint. endpoint.name)

-- The loop of `check_unique_names`, behind the names that were seen.
unfoldable pub unseen_names : (seen : List Name) → List EndpointSpec → Result Error (Unit {0})
unseen_names seen [] = ok tt
unseen_names seen (endpoint ∷ endpoints) =
    let rest = unseen_names (endpoint.name ∷ seen) endpoints in
    if any (name_eq endpoint.name) seen then err (duplicate_name endpoint.name) else rest

unfoldable pub check_unique_names : List EndpointSpec → Result Error (Unit {0})
check_unique_names endpoints = unseen_names [] endpoints

-- The loop over the entries of one endpoint's filters.
unfoldable pub known_entries :
    (known : List Name) (endpoint_name : Name) → List (Name × Name) → Result Error (Unit {0})
known_entries known endpoint_name [] = ok tt
known_entries known endpoint_name ((axis, referenced) ∷ entries) =
    let rest = known_entries known endpoint_name entries in
    if not (any (name_eq referenced) known)
    then err (filter_references_unknown_endpoint endpoint_name axis referenced)
    else rest

-- The loop over the endpoints.
unfoldable pub known_references : (known : List Name) → List EndpointSpec → Result Error (Unit {0})
known_references known [] = ok tt
known_references known (endpoint ∷ endpoints) =
    let flags = identity_of endpoint.kind in
    known_entries known endpoint.name (src_endpoint_out_entries flags.filters)
    >> known_references known endpoints

unfoldable pub validate_endpoint_references : List EndpointSpec → Result Error (Unit {0})
validate_endpoint_references endpoints = known_references (names endpoints) endpoints

-- The loop over the file's endpoints: those that stay, and the names of those that give way.
unfoldable pub split_overridden :
    (cli_names : List Name) → List EndpointSpec → List EndpointSpec × List Name
split_overridden cli_names [] = ([], [])
split_overridden cli_names (endpoint ∷ endpoints) =
    let (kept, overridden) = split_overridden cli_names endpoints in
    if any (name_eq endpoint.name) cli_names
    then (kept, endpoint.name ∷ overridden)
    else (endpoint ∷ kept, overridden)

unfoldable pub merge_endpoints :
    (toml_endpoints cli_endpoints : List EndpointSpec) → List EndpointSpec × List Name
merge_endpoints toml_endpoints cli_endpoints =
    let (kept, overridden) = split_overridden (names cli_endpoints) toml_endpoints in
    (kept ++ cli_endpoints, overridden)

unfoldable pub validate : Config → Result Error (Unit {0})
validate c =
    if ltb max_dedup_ms c.dedup_ms
    then err (dedup_ms_too_large c.dedup_ms max_dedup_ms)
    else if ltb c.stats_interval_secs min_stats_interval_secs
    then err (stats_interval_too_small c.stats_interval_secs min_stats_interval_secs)
    else (check_unique_names c.endpoints >> validate_endpoint_references c.endpoints)

-- `a.or(b).unwrap_or(default)`.
abbrev pub first_of {ℓ} : {A : Type ℓ} → Option A → Option A → A → A
first_of (some a) b default = a
first_of none (some b) default = b
first_of none none default = default

-- The configuration that `merge` validates.
unfoldable pub resolved : TomlConfig → CliConfig → Config
resolved toml cli = record {
  log_level = first_of cli.log_level toml.log_level info;
  log_format = first_of cli.log_format toml.log_format text_format;
  stats = first_of cli.stats toml.stats false;
  stats_interval_secs =
      first_of cli.stats_interval_secs toml.stats_interval_secs default_stats_interval_secs;
  dedup_ms = first_of cli.dedup_ms toml.dedup_ms default_dedup_ms;
  skip_config_log = first_of cli.skip_config_log toml.skip_config_log false;
  endpoints = (merge_endpoints toml.endpoints cli.endpoints).0;
  merged = toml_has_values toml && cli_has_values cli;
}

unfoldable pub merge_sources : TomlConfig → CliConfig → Result Error MergeOutcome
merge_sources toml cli =
    check_unique_names toml.endpoints
    >> (check_unique_names cli.endpoints
        >> (validate (resolved toml cli)
            >> ok (record {
              config = resolved toml cli;
              overridden_names = (merge_endpoints toml.endpoints cli.endpoints).1;
            })))

unfoldable pub merge : Option TomlConfig → CliConfig → Result Error MergeOutcome
merge none cli = merge_sources no_toml cli
merge (some toml) cli = merge_sources toml cli
