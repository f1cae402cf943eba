-- ===== src/Spec/Build.antt =====
-- The whole spec: `parse_kind` of src/endpoint/spec/parse.rs and `EndpointSpec` of
-- src/endpoint/spec/mod.rs.
pub mod Kinds
pub mod Laws
pub mod Grammar
pub mod Unknown
use mavlink_router_rs.Base.{
  ℕ, Bool, true, false, Option, none, some, List, [], ◌∷◌, if◌then◌else◌, Name,
}
use mavlink_router_rs.Base.Results.{Result, ok, err, ◌>>=◌, ◌>>◌, ok_or}
use mavlink_router_rs.Base.Text.{split_once, contains_char}
use mavlink_router_rs.Endpoint.Filters.{is_empty, plain}
use mavlink_router_rs.Spec.Address.{IpAddr}
use mavlink_router_rs.Spec.Body.{
  split_body_name_query, parse_serial_body, parse_host_port, parse_listen_addr,
}
use mavlink_router_rs.Spec.Error.{
  Scheme, serial, udp_server, udp_client, tcp_server, tcp_client, SpecError, missing_scheme,
  malformed_query, question_before_name, from_cli_prefix,
}
use mavlink_router_rs.Spec.FilterLists.{Parsed}
use mavlink_router_rs.Spec.Kinds.{
  no_flow_control, EndpointKind, serial_kind, udp_server_kind, udp_client_kind, tcp_server_kind,
  tcp_client_kind, default_name,
}
use mavlink_router_rs.Spec.Names.{validate_name}
use mavlink_router_rs.Spec.Query.{
  parse_query_pairs, apply_pairs, set_serial, set_udp_server, set_udp_client, set_tcp_server,
  set_tcp_client,
}

pub record EndpointSpec : Type 0 where
  pub kind : EndpointKind
  pub name : Name

module _ (levenshtein : Name → Name → ℕ) (parse_ip : Name → Option IpAddr)
    (show_ip : IpAddr → Name) where
  unfoldable pub parse_kind : Scheme → Name → List (Name × Name) → Parsed EndpointKind
  parse_kind serial body pairs = do
    parts ← parse_serial_body body
    e ← apply_pairs levenshtein set_serial serial pairs (record {
      path = parts.0;
      baud = parts.1;
      flow_control = no_flow_control;
      identity = plain;
    })
    ok (serial_kind e)
  parse_kind udp_server body pairs = do
    addr ← parse_listen_addr parse_ip body udp_server
    e ←
        apply_pairs levenshtein set_udp_server udp_server pairs
          (record { bind_addr = addr; idle_secs = none; identity = plain })
    ok (udp_server_kind e)
  parse_kind udp_client body pairs = do
    parts ← parse_host_port body udp_client
    e ←
        apply_pairs levenshtein set_udp_client udp_client pairs
          (record { host = parts.0; port = parts.1; latch_idle_secs = none; identity = plain })
    ok (udp_client_kind e)
  parse_kind tcp_server body pairs = do
    addr ← parse_listen_addr parse_ip body tcp_server
    e ←
        apply_pairs levenshtein set_tcp_server tcp_server pairs
          (record { bind_addr = addr; identity = plain })
    ok (tcp_server_kind e)
  parse_kind tcp_client body pairs = do
    parts ← parse_host_port body tcp_client
    e ←
        apply_pairs levenshtein set_tcp_client tcp_client pairs
          (record { host = parts.0; port = parts.1; identity = plain })
    ok (tcp_client_kind e)

  -- The explicit name, once it is valid, or the default.
  unfoldable pub spec_name : Option Name → EndpointKind → Parsed Name
  spec_name (some name) kind = do validate_name name >> ok name
  spec_name none kind = ok (default_name show_ip kind)

  unfoldable pub build : Scheme → Name → Option Name → List (Name × Name) → Parsed EndpointSpec
  build scheme body explicit_name pairs = do
    kind ← parse_kind scheme body pairs
    name ← spec_name explicit_name kind
    ok (record { kind = kind; name = name })

  -- `EndpointSpec::parse` behind the scheme.
  unfoldable pub parse_rest :
      (scheme_str body : Name) → Option Name → Option Name → Parsed EndpointSpec
  parse_rest scheme_str body explicit_name query =
      if contains_char b'?' body then err (malformed_query (question_before_name body)) else do
        pairs ← parse_query_pairs (elim query [ none ↦ [] | some s ↦ s ])
        scheme ← from_cli_prefix scheme_str
        build scheme body explicit_name pairs

  unfoldable pub parse : Name → Parsed EndpointSpec
  parse input = elim (split_once b':' input) [
    | none ↦ err (missing_scheme input)
    | some (scheme_str, rest) ↦
        let parts = split_body_name_query rest in
        if is_empty scheme_str
        then err (missing_scheme input)
        else parse_rest scheme_str parts.0 parts.1 parts.2
  ]
