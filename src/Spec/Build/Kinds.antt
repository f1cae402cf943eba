-- ===== src/Spec/Build/Kinds.antt =====
-- What `parse_kind` reads: the address of the body, in range, and valid settings.
use mavlink_router_rs.Base.{ℕ, ◌≤◌, ◌≡◌, refl, Option, List, Name, arith}
use mavlink_router_rs.Base.Results.{ok, ◌>>=◌, OnOk, OnOk-intro, OnOk-elim, OnOk-bind}
use mavlink_router_rs.Spec.Address.{IpAddr}
use mavlink_router_rs.Spec.Body.{u16_max, parse_serial_body, parse_host_port, parse_listen_addr}
use mavlink_router_rs.Spec.Body.Laws.{
  IsDevice, IsHostPort, parse_serial_body-IsDevice, parse_host_port-IsHostPort,
  parse_listen_addr-port,
}
use mavlink_router_rs.Spec.Build.{parse_kind}
use mavlink_router_rs.Spec.Error.{Scheme, serial, udp_server, udp_client, tcp_server, tcp_client}
use mavlink_router_rs.Spec.FilterLists.{Parsed}
use mavlink_router_rs.Spec.FilterLists.Laws.{IsValidIdentity, plain-IsValid}
use mavlink_router_rs.Spec.Kinds.{
  EndpointKind, serial_kind, udp_server_kind, udp_client_kind, tcp_server_kind, tcp_client_kind,
  scheme_of, identity_of,
}
use mavlink_router_rs.Spec.Query.{
  apply_pairs, set_serial, set_udp_server, set_udp_client, set_tcp_server, set_tcp_client, Applier,
  min_idle_secs, max_idle_secs, min_latch_idle_secs, max_latch_idle_secs,
}
use mavlink_router_rs.Spec.Query.Settings.{
  apply_pairs-OnOk, IsWithin, SerialFrom, UdpServerFrom, UdpClientFrom, TcpServerFrom,
  TcpClientFrom, set_serial-SerialFrom, set_udp_server-UdpServerFrom, set_udp_client-UdpClientFrom,
  set_tcp_server-TcpServerFrom, set_tcp_client-TcpClientFrom,
}

-- The address is complete and in range, and so are the settings of the scheme.
abbrev pub HasAddress : EndpointKind → Type 0
HasAddress (serial_kind e) = IsDevice (e.path, e.baud)
HasAddress (udp_server_kind e) =
    (e.bind_addr.port ≤ u16_max) × IsWithin min_idle_secs max_idle_secs e.idle_secs
HasAddress (udp_client_kind e) =
    IsHostPort (e.host, e.port) × IsWithin min_latch_idle_secs max_latch_idle_secs e.latch_idle_secs
HasAddress (tcp_server_kind e) = e.bind_addr.port ≤ u16_max
HasAddress (tcp_client_kind e) = IsHostPort (e.host, e.port)

-- The address is what the body spells.
abbrev pub Reads : (Name → Option IpAddr) → Name → EndpointKind → Type 0
Reads parse_ip body (serial_kind e) = parse_serial_body body ≡ ok (e.path, e.baud)
Reads parse_ip body (udp_server_kind e) =
    parse_listen_addr parse_ip body udp_server ≡ ok e.bind_addr
Reads parse_ip body (udp_client_kind e) = parse_host_port body udp_client ≡ ok (e.host, e.port)
Reads parse_ip body (tcp_server_kind e) =
    parse_listen_addr parse_ip body tcp_server ≡ ok e.bind_addr
Reads parse_ip body (tcp_client_kind e) = parse_host_port body tcp_client ≡ ok (e.host, e.port)

pub record IsKind (parse_ip : Name → Option IpAddr) (scheme : Scheme) (body : Name)
    (kind : EndpointKind) : Type 0 where
  pub scheme_is : scheme_of kind ≡ scheme
  pub reads : Reads parse_ip body kind
  pub has_address : HasAddress kind
  pub identity_valid : IsValidIdentity (identity_of kind)

-- An address is read, and then the pairs are applied to an endpoint with that address.
settled {ℓ κ} :
    (levenshtein : Name → Name → ℕ) {R A : Type 0} (From : R → A → Type ℓ)
    (Q : EndpointKind → Type κ) (reader : Parsed R) (init : R → A) (set : Applier A)
    (scheme : Scheme) (wrap : A → EndpointKind) (pairs : List (Name × Name))
    → ((parts : R) (key value : Name) (e : A)
        → From parts e
        → OnOk (λ p. From parts p.0) (set key value e))
    → ((parts : R) → From parts (init parts))
    → ((parts : R) (e : A) → reader ≡ ok parts → From parts e → Q (wrap e))
    → OnOk Q
        (do parts ← reader; e ← apply_pairs levenshtein set scheme pairs (init parts); ok (wrap e))
settled levenshtein From Q reader init set scheme wrap pairs keeps starts ends =
    OnOk-bind (λ parts. reader ≡ ok parts) Q reader _ (OnOk-intro reader (λ parts read. read))
      (λ parts read.
        OnOk-bind (From parts) Q (apply_pairs levenshtein set scheme pairs (init parts)) _
          (apply_pairs-OnOk levenshtein (From parts) set scheme (keeps parts) pairs (init parts)
            (starts parts))
          (λ e from. ends parts e read from))

module _ (levenshtein : Name → Name → ℕ) (parse_ip : Name → Option IpAddr) (show_ip : IpAddr → Name)
    (body : Name) (pairs : List (Name × Name)) where
  pub parse_kind-IsKind :
      (scheme : Scheme)
      → OnOk
          (IsKind parse_ip scheme body)
          (parse_kind levenshtein parse_ip show_ip scheme body pairs)
  unfolding parse_kind
  parse_kind-IsKind serial =
      settled levenshtein SerialFrom (IsKind parse_ip serial body) (parse_serial_body body) _
        set_serial serial serial_kind pairs set_serial-SerialFrom
        (λ parts. (refl, refl, plain-IsValid))
        (λ parts e read from.
          let bounds = OnOk-elim IsDevice _ (parse_serial_body-IsDevice body) read in
          unfold scheme_of identity_of in ground arith)
  parse_kind-IsKind udp_server =
      settled levenshtein UdpServerFrom (IsKind parse_ip udp_server body)
        (parse_listen_addr parse_ip body udp_server) _ set_udp_server udp_server udp_server_kind
        pairs set_udp_server-UdpServerFrom (λ addr. (refl, tt, plain-IsValid))
        (λ addr e read from.
          let bounds =
            OnOk-elim (λ a. a.port ≤ u16_max) _ (parse_listen_addr-port parse_ip body udp_server)
              read in
          unfold scheme_of identity_of in ground arith)
  parse_kind-IsKind udp_client =
      settled levenshtein UdpClientFrom (IsKind parse_ip udp_client body)
        (parse_host_port body udp_client) _ set_udp_client udp_client udp_client_kind pairs
        set_udp_client-UdpClientFrom (λ parts. (refl, refl, tt, plain-IsValid))
        (λ parts e read from.
          let bounds = OnOk-elim IsHostPort _ (parse_host_port-IsHostPort body udp_client) read in
          unfold scheme_of identity_of in ground arith)
  parse_kind-IsKind tcp_server =
      settled levenshtein TcpServerFrom (IsKind parse_ip tcp_server body)
        (parse_listen_addr parse_ip body tcp_server) _ set_tcp_server tcp_server tcp_server_kind
        pairs set_tcp_server-TcpServerFrom (λ addr. (refl, plain-IsValid))
        (λ addr e read from.
          let bounds =
            OnOk-elim (λ a. a.port ≤ u16_max) _ (parse_listen_addr-port parse_ip body tcp_server)
              read in
          unfold scheme_of identity_of in ground arith)
  parse_kind-IsKind tcp_client =
      settled levenshtein TcpClientFrom (IsKind parse_ip tcp_client body)
        (parse_host_port body tcp_client) _ set_tcp_client tcp_client tcp_client_kind pairs
        set_tcp_client-TcpClientFrom (λ parts. (refl, refl, plain-IsValid))
        (λ parts e read from.
          let bounds = OnOk-elim IsHostPort _ (parse_host_port-IsHostPort body tcp_client) read in
          unfold scheme_of identity_of in ground arith)
