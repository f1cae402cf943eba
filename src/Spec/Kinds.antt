-- ===== src/Spec/Kinds.antt =====
-- The kinds of endpoints: src/endpoint/spec/endpoint_kinds.rs. The text of an IP address is the
-- standard library's, `show_ip`.
use mavlink_router_rs.Base.{ℕ, Option, ◌∷◌, ◌++◌, Name}
use mavlink_router_rs.Base.Text.{text}
use mavlink_router_rs.Base.Text.Decimal.{show_unsigned}
use mavlink_router_rs.Endpoint.Filters.{IdentityFlags}
use mavlink_router_rs.Spec.Address.{IpAddr, SocketAddr}
use mavlink_router_rs.Spec.Error.{Scheme, serial, udp_server, udp_client, tcp_server, tcp_client}
use mavlink_router_rs.Spec.Names.{sanitize_for_name}

pub data SerialFlowControl : Type 0 where
  no_flow_control rts_cts : SerialFlowControl

pub record SerialEndpoint : Type 0 where
  pub path : Name
  pub baud : ℕ
  pub flow_control : SerialFlowControl
  pub identity : IdentityFlags

pub record UdpServerEndpoint : Type 0 where
  pub bind_addr : SocketAddr
  pub idle_secs : Option ℕ
  pub identity : IdentityFlags

pub record UdpClientEndpoint : Type 0 where
  pub host : Name
  pub port : ℕ
  pub latch_idle_secs : Option ℕ
  pub identity : IdentityFlags

pub record TcpServerEndpoint : Type 0 where
  pub bind_addr : SocketAddr
  pub identity : IdentityFlags

pub record TcpClientEndpoint : Type 0 where
  pub host : Name
  pub port : ℕ
  pub identity : IdentityFlags

pub data EndpointKind : Type 0 where
  serial_kind : SerialEndpoint → EndpointKind
  udp_server_kind : UdpServerEndpoint → EndpointKind
  udp_client_kind : UdpClientEndpoint → EndpointKind
  tcp_server_kind : TcpServerEndpoint → EndpointKind
  tcp_client_kind : TcpClientEndpoint → EndpointKind

unfoldable pub scheme_of : EndpointKind → Scheme
scheme_of (serial_kind e) = serial
scheme_of (udp_server_kind e) = udp_server
scheme_of (udp_client_kind e) = udp_client
scheme_of (tcp_server_kind e) = tcp_server
scheme_of (tcp_client_kind e) = tcp_client

unfoldable pub identity_of : EndpointKind → IdentityFlags
identity_of (serial_kind e) = e.identity
identity_of (udp_server_kind e) = e.identity
identity_of (udp_client_kind e) = e.identity
identity_of (tcp_server_kind e) = e.identity
identity_of (tcp_client_kind e) = e.identity

-- `<scheme>-<address>-<number>`.
unfoldable pub composed_name : (scheme address : Name) → ℕ → Name
composed_name scheme address number =
    scheme ++ (b'-' ∷ (sanitize_for_name address ++ (b'-' ∷ show_unsigned number)))

-- `EndpointKind::default_name`.
unfoldable pub default_name : (IpAddr → Name) → EndpointKind → Name
unfolding composed_name
default_name show_ip (serial_kind e) = composed_name (text "serial") e.path e.baud
default_name show_ip (udp_server_kind e) =
    composed_name (text "udps") (show_ip e.bind_addr.ip) e.bind_addr.port
default_name show_ip (udp_client_kind e) = composed_name (text "udpc") e.host e.port
default_name show_ip (tcp_server_kind e) =
    composed_name (text "tcps") (show_ip e.bind_addr.ip) e.bind_addr.port
default_name show_ip (tcp_client_kind e) = composed_name (text "tcpc") e.host e.port
