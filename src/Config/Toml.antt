-- ===== src/Config/Toml.antt =====
-- The file behind the TOML crate: src/parsers/toml.rs.
pub mod Laws
use mavlink_router_rs.Base.{
  ℕ, Bool, true, false, not, ◌&&◌, Option, none, some, List, [], ◌∷◌, ◌++◌, any, if◌then◌else◌,
  Name, name_eq,
}
use mavlink_router_rs.Base.Results.{Result, ok, err, ◌>>=◌, ◌>>◌, ok_or, map_err}
use mavlink_router_rs.Base.Text.{text, contains_char}
use mavlink_router_rs.Base.Text.Decimal.{show_unsigned}
use mavlink_router_rs.Config.Merge.{
  LogLevel, LogFormat, Error, config_schema, config_parse, spec_in_toml, field_not_valid,
  requires_field, unknown_type, TomlConfig,
}
use mavlink_router_rs.Router.Learn.{is_some}
use mavlink_router_rs.Spec.Address.{IpAddr}
use mavlink_router_rs.Spec.Build.{EndpointSpec, build}
use mavlink_router_rs.Spec.Error.{
  Scheme, serial, udp_server, udp_client, tcp_server, tcp_client, try_from_str,
}

-- One table `[endpoint.NAME]`.
pub record TomlEndpoint : Type 0 where
  pub scheme : Name
  pub path : Option Name
  pub baud : Option ℕ
  pub flow_control : Option Name
  pub bind : Option Name
  pub host : Option Name
  pub port : Option ℕ
  pub idle_secs : Option ℕ
  pub latch_idle_secs : Option ℕ
  pub sniffer : Option Bool
  pub group : Option Name
  pub allow_msgid_in : Option Name
  pub block_msgid_in : Option Name
  pub allow_msgid_out : Option Name
  pub block_msgid_out : Option Name
  pub allow_src_sys_in : Option Name
  pub block_src_sys_in : Option Name
  pub allow_src_sys_out : Option Name
  pub block_src_sys_out : Option Name
  pub allow_src_comp_in : Option Name
  pub block_src_comp_in : Option Name
  pub allow_src_comp_out : Option Name
  pub block_src_comp_out : Option Name
  pub allow_src_endpoint_out : Option Name
  pub block_src_endpoint_out : Option Name

-- The file. The TOML crate reads each table into a `TomlEndpoint`, or refuses it with an error.
pub record TomlFile : Type 0 where
  pub log_level : Option LogLevel
  pub log_format : Option LogFormat
  pub stats : Option Bool
  pub stats_interval_secs : Option ℕ
  pub dedup_ms : Option ℕ
  pub skip_config_log : Option Bool
  pub endpoint : List (Name × Result ℕ TomlEndpoint)

unfoldable pub scheme_from_toml_type : (raw name : Name) → Result Error Scheme
scheme_from_toml_type raw name = ok_or (try_from_str raw) (config_schema name (unknown_type raw))

abbrev pub missing : (name : Name) → Scheme → (field : Name) → Error
missing name scheme field = config_schema name (requires_field scheme field)

-- `<path>:<baud>`.
unfoldable pub serial_body : Name → TomlEndpoint → Result Error Name
serial_body name entry = do
  path ← ok_or entry.path (missing name serial (text "path"))
  baud ← ok_or entry.baud (missing name serial (text "baud"))
  ok (path ++ b':' ∷ show_unsigned baud)

-- `<host>:<port>`, where a host with a `:` stands in brackets.
unfoldable pub host_port_body : Name → Scheme → TomlEndpoint → Result Error Name
host_port_body name scheme entry = do
  host ← ok_or entry.host (missing name scheme (text "host"))
  port ← ok_or entry.port (missing name scheme (text "port"))
  ok (
      if contains_char b':' host
      then b'[' ∷ (host ++ b']' ∷ b':' ∷ show_unsigned port)
      else host ++ b':' ∷ show_unsigned port)

unfoldable pub synthesize_body : Name → Scheme → TomlEndpoint → Result Error Name
synthesize_body name serial entry = serial_body name entry
synthesize_body name udp_server entry = ok_or entry.bind (missing name udp_server (text "bind"))
synthesize_body name udp_client entry = host_port_body name udp_client entry
synthesize_body name tcp_server entry = ok_or entry.bind (missing name tcp_server (text "bind"))
synthesize_body name tcp_client entry = host_port_body name tcp_client entry

unfoldable pub allowed_fields : Scheme → List Name
allowed_fields serial = text "path" ∷ text "baud" ∷ text "flow_control" ∷ []
allowed_fields udp_server = text "bind" ∷ text "idle_secs" ∷ []
allowed_fields udp_client = text "host" ∷ text "port" ∷ text "latch_idle_secs" ∷ []
allowed_fields tcp_server = text "bind" ∷ []
allowed_fields tcp_client = text "host" ∷ text "port" ∷ []

unfoldable pub provided_fields : TomlEndpoint → List (Name × Bool)
provided_fields entry =
    (text "path", is_some entry.path)
    ∷ (text "baud", is_some entry.baud)
    ∷ (text "flow_control", is_some entry.flow_control)
    ∷ (text "bind", is_some entry.bind)
    ∷ (text "host", is_some entry.host)
    ∷ (text "port", is_some entry.port)
    ∷ (text "idle_secs", is_some entry.idle_secs)
    ∷ (text "latch_idle_secs", is_some entry.latch_idle_secs)
    ∷ []

-- The loop over the fields provided.
unfoldable pub reject_fields : Name → Scheme → List (Name × Bool) → Result Error (Unit {0})
reject_fields name scheme [] = ok tt
reject_fields name scheme ((field, present) ∷ fields) =
    let rest = reject_fields name scheme fields in
    if present && not (any (name_eq field) (allowed_fields scheme))
    then err (config_schema name (field_not_valid field scheme (allowed_fields scheme)))
    else rest

unfoldable pub reject_disallowed_fields : Name → Scheme → TomlEndpoint → Result Error (Unit {0})
reject_disallowed_fields name scheme entry = reject_fields name scheme (provided_fields entry)

-- One pair, if the field is set.
abbrev pub pair_of : Name → Option Name → List (Name × Name)
pair_of key none = []
pair_of key (some value) = (key, value) ∷ []

abbrev pub shown : Option ℕ → Option Name
shown none = none
shown (some n) = some (show_unsigned n)

abbrev pub shown_bool : Option Bool → Option Name
shown_bool none = none
shown_bool (some true) = some (text "true")
shown_bool (some false) = some (text "false")

unfoldable pub filter_pairs : TomlEndpoint → List (Name × Name)
filter_pairs e =
    pair_of (text "allow_msgid_in") e.allow_msgid_in
    ++ (pair_of (text "block_msgid_in") e.block_msgid_in
        ++ (pair_of (text "allow_msgid_out") e.allow_msgid_out
            ++ (pair_of (text "block_msgid_out") e.block_msgid_out
                ++ (pair_of (text "allow_src_sys_in") e.allow_src_sys_in
                    ++ (pair_of (text "block_src_sys_in") e.block_src_sys_in
                        ++ (pair_of (text "allow_src_sys_out") e.allow_src_sys_out
                            ++ (pair_of (text "block_src_sys_out") e.block_src_sys_out
                                ++ (pair_of (text "allow_src_comp_in") e.allow_src_comp_in
                                    ++ (pair_of (text "block_src_comp_in") e.block_src_comp_in
                                        ++ (pair_of (text "allow_src_comp_out") e.allow_src_comp_out
                                            ++ (pair_of (text "block_src_comp_out")
                                                  e.block_src_comp_out
                                                ++ (pair_of (text "allow_src_endpoint_out")
                                                      e.allow_src_endpoint_out
                                                    ++ pair_of (text "block_src_endpoint_out")
                                                        e.block_src_endpoint_out))))))))))))

unfoldable pub collect_pairs : TomlEndpoint → List (Name × Name)
unfolding filter_pairs
collect_pairs e =
    pair_of (text "flow_control") e.flow_control
    ++ (pair_of (text "idle_secs") (shown e.idle_secs)
        ++ (pair_of (text "latch_idle_secs") (shown e.latch_idle_secs)
            ++ (pair_of (text "sniffer") (shown_bool e.sniffer)
                ++ (pair_of (text "group") e.group ++ filter_pairs e))))

module _ (levenshtein : Name → Name → ℕ) (parse_ip : Name → Option IpAddr)
    (show_ip : IpAddr → Name) where
  unfoldable pub into_spec : Name → TomlEndpoint → Result Error EndpointSpec
  into_spec name entry = do
    scheme ← scheme_from_toml_type entry.scheme name
    reject_disallowed_fields name scheme entry
    body ← synthesize_body name scheme entry
    map_err (spec_in_toml name)
        (build levenshtein parse_ip show_ip scheme body (some name) (collect_pairs entry))

  -- The loop of `into_toml_config` over the tables.
  unfoldable pub specs_of : List (Name × Result ℕ TomlEndpoint) → Result Error (List EndpointSpec)
  specs_of [] = ok []
  specs_of ((name, value) ∷ tables) = do
    entry ← map_err config_parse value
    spec ← into_spec name entry
    rest ← specs_of tables
    ok (spec ∷ rest)

  unfoldable pub into_toml_config : TomlFile → Result Error TomlConfig
  into_toml_config file = do
    endpoints ← specs_of file.endpoint
    ok (record {
      log_level = file.log_level;
      log_format = file.log_format;
      stats = file.stats;
      stats_interval_secs = file.stats_interval_secs;
      dedup_ms = file.dedup_ms;
      skip_config_log = file.skip_config_log;
      endpoints = endpoints;
    })
