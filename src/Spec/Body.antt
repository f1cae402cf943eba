-- ===== src/Spec/Body.antt =====
-- The addresses in the body of a spec: src/endpoint/spec/parse.rs. The parser of IP addresses is
-- the standard library's, `parse_ip`.
pub mod Laws
use mavlink_router_rs.Base.{
  ℕ, ◌^◌, ◌-◌, ◌||◌, Bool, true, false, Option, none, some, List, [], ◌∷◌, ◌==◌, if◌then◌else◌,
  Name,
}
use mavlink_router_rs.Base.Results.{Result, ok, err, ◌>>=◌, ok_or}
use mavlink_router_rs.Base.Text.{split_once, rsplit_at, strip_prefix, contains_char}
use mavlink_router_rs.Base.Text.Decimal.{parse_unsigned}
use mavlink_router_rs.Endpoint.Filters.{is_empty}
use mavlink_router_rs.Spec.Address.{IpAddr, SocketAddr}
use mavlink_router_rs.Spec.Error.{
  Scheme, serial, SpecError, malformed_body, BodyReason, empty_body, no_separator, empty_path,
  zero_baud, unclosed_bracket, no_port_after_bracket, no_colon, empty_host, bad_baud, bad_port,
  unbracketed_colon, not_ip_literal,
}
use mavlink_router_rs.Spec.FilterLists.{Parsed, u32_max}

abbrev pub u16_max : ℕ
u16_max = 2 ^ 16 - 1

-- The body, the name behind `#`, and the query behind `?`.
unfoldable pub split_body_name_query : Name → Name × Option Name × Option Name
split_body_name_query rest = elim (split_once b'#' rest) [
  | some (body, after_hash) ↦ elim (split_once b'?' after_hash) [
    | some (name, query) ↦ (body, some name, some query)
    | none ↦ (body, some after_hash, none)
  ]
  | none ↦ elim (split_once b'?' rest) [
    | some (body, query) ↦ (body, none, some query)
    | none ↦ (rest, none, none)
  ]
]

-- The path and the baud rate around the last `:` or `,`, once they are found.
unfoldable pub serial_parts : (body path baud_str : Name) → Parsed (Name × ℕ)
serial_parts body path baud_str =
    if is_empty path then err (malformed_body serial body empty_path) else do
      baud ←
          ok_or (parse_unsigned u32_max baud_str) (malformed_body serial body (bad_baud baud_str))
      if baud == 0 then err (malformed_body serial body zero_baud) else ok (path, baud)

unfoldable pub parse_serial_body : Name → Parsed (Name × ℕ)
parse_serial_body body =
    if is_empty body
    then err (malformed_body serial body empty_body)
    else elim (rsplit_at (λ c. c == b':' || c == b',') body) [
      | none ↦ err (malformed_body serial body no_separator)
      | some (path, baud_str) ↦ serial_parts body path baud_str
    ]

-- The host and the port of `[<host>]:<port>`, behind the `[`.
unfoldable pub bracketed : (body rest : Name) → Scheme → Parsed (Name × Name)
bracketed body rest scheme = elim (split_once b']' rest) [
  | none ↦ err (malformed_body scheme body unclosed_bracket)
  | some (host, after) ↦ elim (strip_prefix b':' after) [
    | none ↦ err (malformed_body scheme body no_port_after_bracket)
    | some port_str ↦ ok (host, port_str)
  ]
]

-- The host and the port of `<host>:<port>`.
unfoldable pub unbracketed : (body : Name) → Scheme → Parsed (Name × Name)
unbracketed body scheme = elim (rsplit_at (λ c. c == b':') body) [
  | none ↦ err (malformed_body scheme body no_colon)
  | some (host, port_str) ↦
      if contains_char b':' host
      then err (malformed_body scheme body (unbracketed_colon host))
      else ok (host, port_str)
]

unfoldable pub host_and_port : (body : Name) → Scheme → Parsed (Name × Name)
host_and_port body scheme = elim (strip_prefix b'[' body) [
  | some rest ↦ bracketed body rest scheme
  | none ↦ unbracketed body scheme
]

unfoldable pub parse_host_port : (body : Name) → Scheme → Parsed (Name × ℕ)
parse_host_port body scheme =
    if is_empty body then err (malformed_body scheme body empty_body) else do
      parts ← host_and_port body scheme
      if is_empty parts.0 then err (malformed_body scheme body empty_host) else do
        port ←
            ok_or (parse_unsigned u16_max parts.1) (malformed_body scheme body (bad_port parts.1))
        ok (parts.0, port)

unfoldable pub parse_listen_addr :
    (Name → Option IpAddr) → (body : Name) → Scheme → Parsed SocketAddr
parse_listen_addr parse_ip body scheme = do
  parts ← parse_host_port body scheme
  ip ← ok_or (parse_ip parts.0) (malformed_body scheme body (not_ip_literal parts.0))
  ok (record { ip = ip; port = parts.1 })
