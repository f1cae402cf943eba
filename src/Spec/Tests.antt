-- ===== src/Spec/Tests.antt =====
-- Specs on concrete strings.
use mavlink_router_rs.Base.{
  ℕ, ◌≡◌, refl, Option, none, some, [], ◌∷◌, ◌++◌, if◌then◌else◌, Name, name_eq, name_key, length,
  ◌-◌,
}
use mavlink_router_rs.Base.Results.{ok, err}
use mavlink_router_rs.Base.Table
use mavlink_router_rs.Base.Table.{Unique}
use mavlink_router_rs.Base.Text.{
  text, split_once, rsplit_at, split, strip_prefix, to_ascii_lowercase, trim, is_ascii_alphanumeric,
}
use mavlink_router_rs.Base.Text.Decimal.{parse_unsigned}
use mavlink_router_rs.Base.Results.{collect}
use mavlink_router_rs.Endpoint.Filters.{no_filters, plain}
use mavlink_router_rs.Spec.Address.{IpAddr, v4_ip}
use mavlink_router_rs.Spec.Body.{
  split_body_name_query, host_and_port, unbracketed, parse_host_port, parse_listen_addr,
}
use mavlink_router_rs.Spec.Build.{EndpointSpec, parse_kind, spec_name, build, parse_rest, parse}
use mavlink_router_rs.Spec.Build.Grammar.{parse_written}
use mavlink_router_rs.Spec.Build.Laws.{IsValidSpec, parse-IsValidSpec}
use mavlink_router_rs.Spec.Build.Unknown.{parse_kind_unknown_key}
use mavlink_router_rs.Spec.Error.{
  tcp_client, as_str, try_from_str, from_cli_prefix, unknown_query_key,
}
use mavlink_router_rs.Spec.FilterLists.{
  parse_range_pair_u32, u8_entry, parse_u8_ranges, apply_filter, apply_identity, identity_keys,
  filter_keys,
}
use mavlink_router_rs.Spec.Kinds.{udp_server_kind, tcp_client_kind}
use mavlink_router_rs.Spec.Names.{is_name_char, name_matches_regex, validate_name}
use mavlink_router_rs.Spec.Query.{
  read_pair, pairs_from, parse_query_pairs, check_u64_range, parse_u64, seconds, set_udp_server,
  apply_pairs, suggest_query_key, known_keys_for,
}
use mavlink_router_rs.Spec.Query.Laws.{render_pair, render_pairs, IsPair}

-- A distance, and the parser and printer of one address.
abbrev distance : Name → Name → ℕ
distance a b = length a - length b

abbrev local_ip : Name → Option IpAddr
local_ip s = if name_eq s (text "127.0.0.1") then some (v4_ip 2130706433) else none

abbrev show_local : IpAddr → Name
show_local ip = text "127.0.0.1"

abbrev listener_spec : EndpointSpec
listener_spec = record {
  kind = udp_server_kind (record {
    bind_addr = record { ip = v4_ip 2130706433; port = 14550 };
    idle_secs = some 60;
    identity = record plain {
      filters = record no_filters { allow_src_sys_in = record { lo = 1; hi = 9 } ∷ [] };
    };
  });
  name = text "gcs";
}

parse_listener :
    parse distance local_ip show_local
      (text "udps:127.0.0.1:14550#gcs?idle_secs=60&allow_src_sys_in=1-9")
    ≡ ok listener_spec
unfolding parse parse_rest build spec_name parse_kind split_once rsplit_at split strip_prefix
    to_ascii_lowercase trim is_ascii_alphanumeric parse_unsigned split_body_name_query host_and_port
    unbracketed parse_host_port parse_listen_addr try_from_str from_cli_prefix name_eq
    parse_range_pair_u32 u8_entry parse_u8_ranges collect apply_filter apply_identity is_name_char
    name_matches_regex validate_name read_pair pairs_from parse_query_pairs check_u64_range
    parse_u64 seconds set_udp_server apply_pairs
parse_listener = refl

parse-IsValidSpec_example : IsValidSpec listener_spec
parse-IsValidSpec_example =
    parse-IsValidSpec distance local_ip show_local
      (text "udps:127.0.0.1:14550#gcs?idle_secs=60&allow_src_sys_in=1-9") parse_listener

abbrev sniffing : Name × Name
sniffing = (text "sniffer", text "true")

sniffing-IsPair : IsPair sniffing
unfolding render_pair to_ascii_lowercase
sniffing-IsPair = record { key_full = refl; key_lower = refl; key_free = refl; amp_free = refl }

parse_written_example :
    parse distance local_ip show_local (
      as_str tcp_client
      ++ b':' ∷ (text "gcs:5760" ++ b'#' ∷ (text "up" ++ b'?' ∷ render_pairs sniffing [])))
    ≡ build distance local_ip show_local tcp_client
        (text "gcs:5760")
        (some (text "up"))
        (sniffing ∷ [])
unfolding Table.get
parse_written_example =
    parse_written distance local_ip show_local tcp_client (text "gcs:5760") (text "up") sniffing []
      refl refl refl (sniffing-IsPair, tt) (refl, tt)

parse_kind_unknown_key_example :
    parse_kind distance local_ip show_local tcp_client
      (text "gcs:5760")
      ([] ++ (text "idle_secs", text "9") ∷ [])
    ≡ err (
        unknown_query_key tcp_client
          (text "idle_secs")
          (suggest_query_key distance tcp_client (text "idle_secs")))
unfolding parse_kind parse_host_port host_and_port unbracketed strip_prefix rsplit_at parse_unsigned
    name_eq known_keys_for identity_keys filter_keys apply_pairs
parse_kind_unknown_key_example =
    parse_kind_unknown_key distance local_ip show_local tcp_client (text "gcs:5760") [] []
      (text "idle_secs") (text "9")
      {kind = tcp_client_kind (record { host = text "gcs"; port = 5760; identity = plain })} refl
      refl
