-- ===== src/Spec/Build/Unknown.antt =====
-- A query key that the scheme does not know is refused, with a suggestion.
use mavlink_router_rs.Base.{ℕ, ◌≡◌, refl, true, false, Option, List, ◌∷◌, ◌++◌, Name}
use mavlink_router_rs.Base.Results.{ok, err, ◌>>=◌, All, bind_eq_ok}
use mavlink_router_rs.Spec.Address.{IpAddr}
use mavlink_router_rs.Spec.Body.{parse_serial_body, parse_host_port, parse_listen_addr}
use mavlink_router_rs.Spec.Build.{parse_kind}
use mavlink_router_rs.Spec.Error.{
  Scheme, serial, udp_server, udp_client, tcp_server, tcp_client, unknown_query_key,
}
use mavlink_router_rs.Spec.FilterLists.{Parsed}
use mavlink_router_rs.Spec.FilterLists.Laws.{takes}
use mavlink_router_rs.Spec.Kinds.{
  EndpointKind, serial_kind, udp_server_kind, udp_client_kind, tcp_server_kind, tcp_client_kind,
}
use mavlink_router_rs.Spec.Query.{
  Applier, apply_pairs, set_serial, set_udp_server, set_udp_client, set_tcp_server, set_tcp_client,
  suggest_query_key,
}
use mavlink_router_rs.Spec.Query.Keys.{
  knows, apply_pairs_known, apply_pairs_unknown, takes-set_serial, takes-set_udp_server,
  takes-set_udp_client, takes-set_tcp_server, takes-set_tcp_client,
}

module _ (levenshtein : Name → Name → ℕ) {R A : Type 0} (reader : Parsed R) (init : R → A)
    (set : Applier A) (scheme : Scheme) (wrap : A → EndpointKind)
    (listed : (key value : Name) (e : A) → takes (set key value e) ≡ knows scheme key) where
  abbrev reads_kind : List (Name × Name) → Parsed EndpointKind
  reads_kind pairs = do
    parts ← reader
    e ← apply_pairs levenshtein set scheme pairs (init parts)
    ok (wrap e)

  kind_known :
      (pairs : List (Name × Name)) {kind : EndpointKind}
      → reads_kind pairs ≡ ok kind
      → All (λ p. knows scheme p.0 ≡ true) pairs
  kind_known pairs h =
      let (parts, read, h₁) = bind_eq_ok reader _ h in
      let (e, applied, h₂) =
        bind_eq_ok (apply_pairs levenshtein set scheme pairs (init parts)) _ h₁ in
      apply_pairs_known levenshtein set scheme listed pairs (init parts) applied

  kind_unknown :
      (front back : List (Name × Name)) (key value : Name) {kind : EndpointKind}
      → reads_kind front ≡ ok kind
      → knows scheme key ≡ false
      → reads_kind (front ++ (key, value) ∷ back)
        ≡ err (unknown_query_key scheme key (suggest_query_key levenshtein scheme key))
  kind_unknown front back key value h unknown =
      let (parts, read, h₁) = bind_eq_ok reader _ h in
      let (e, applied, h₂) =
        bind_eq_ok (apply_pairs levenshtein set scheme front (init parts)) _ h₁ in
      let refused =
        apply_pairs_unknown levenshtein set scheme listed front back key value (init parts) applied
          unknown in
      rw read (rw refused refl)

module _ (levenshtein : Name → Name → ℕ) (parse_ip : Name → Option IpAddr)
    (show_ip : IpAddr → Name) where
  -- Where a body and pairs give an endpoint, a further pair whose key is neither an identity key, a
  -- filter key, nor a key of the scheme is refused as unknown, with the key and the suggestion for
  -- it, whatever stands behind it.
  pub parse_kind_unknown_key :
      (scheme : Scheme) (body : Name) (front back : List (Name × Name)) (key value : Name)
      {kind : EndpointKind}
      → parse_kind levenshtein parse_ip show_ip scheme body front ≡ ok kind
      → knows scheme key ≡ false
      → parse_kind levenshtein parse_ip show_ip scheme body (front ++ (key, value) ∷ back)
        ≡ err (unknown_query_key scheme key (suggest_query_key levenshtein scheme key))
  unfolding parse_kind
  parse_kind_unknown_key serial body =
      kind_unknown levenshtein (parse_serial_body body) _ set_serial serial serial_kind
        takes-set_serial
  parse_kind_unknown_key udp_server body =
      kind_unknown levenshtein (parse_listen_addr parse_ip body udp_server) _ set_udp_server
        udp_server udp_server_kind takes-set_udp_server
  parse_kind_unknown_key udp_client body =
      kind_unknown levenshtein (parse_host_port body udp_client) _ set_udp_client udp_client
        udp_client_kind takes-set_udp_client
  parse_kind_unknown_key tcp_server body =
      kind_unknown levenshtein (parse_listen_addr parse_ip body tcp_server) _ set_tcp_server
        tcp_server tcp_server_kind takes-set_tcp_server
  parse_kind_unknown_key tcp_client body =
      kind_unknown levenshtein (parse_host_port body tcp_client) _ set_tcp_client tcp_client
        tcp_client_kind takes-set_tcp_client
