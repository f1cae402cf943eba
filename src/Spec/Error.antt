-- ===== src/Spec/Error.antt =====
-- The schemes of spec/mod.rs, and the errors of spec/error.rs. A formatted message is the
-- constructor of its format, with the values that stand in it.
use mavlink_router_rs.Base.{ℕ, ◌≡◌, refl, Option, none, some, if◌then◌else◌, Name, name_eq}
use mavlink_router_rs.Base.Results.{Result, ok_or}
use mavlink_router_rs.Base.Text.{text}

pub data Scheme : Type 0 where
  serial udp_server udp_client tcp_server tcp_client : Scheme

unfoldable pub as_str : Scheme → Name
as_str serial = text "serial"
as_str udp_server = text "udps"
as_str udp_client = text "udpc"
as_str tcp_server = text "tcps"
as_str tcp_client = text "tcpc"

unfoldable pub try_from_str : Name → Option Scheme
try_from_str raw =
    if name_eq raw (text "serial")
    then some serial
    else if name_eq raw (text "udps")
    then some udp_server
    else if name_eq raw (text "udpc")
    then some udp_client
    else if name_eq raw (text "tcps")
    then some tcp_server
    else if name_eq raw (text "tcpc")
    then some tcp_client
    else none

-- The formats of the messages of `MalformedQuery`.
pub data QueryReason : Type 0 where
  question_before_name : (body : Name) → QueryReason
  no_equals empty_key : (pair : Name) → QueryReason

-- The formats of the messages of `MalformedBody`.
pub data BodyReason : Type 0 where
  empty_body no_separator empty_path zero_baud : BodyReason
  unclosed_bracket no_port_after_bracket no_colon empty_host : BodyReason
  bad_baud bad_port unbracketed_colon not_ip_literal : Name → BodyReason

-- The formats of the messages of `InvalidQueryValue`.
pub data ValueReason : Type 0 where
  empty_entry bad_lower_bound bad_upper_bound not_integer_or_range : Name → ValueReason
  out_of_u8_range not_name not_bool not_flow_control not_integer : Name → ValueReason
  lo_above_hi : (lo hi : ℕ) → ValueReason
  out_of_range : (min max value : ℕ) → ValueReason

pub data SpecError : Type 0 where
  missing_scheme unknown_scheme invalid_name duplicate_query_key : Name → SpecError
  unknown_query_key : (scheme : Scheme) (key : Name) (suggestion : Option Name) → SpecError
  malformed_query : QueryReason → SpecError
  malformed_body : (scheme : Scheme) (body : Name) → BodyReason → SpecError
  invalid_query_value : (key : Name) → ValueReason → SpecError

unfoldable pub from_cli_prefix : Name → Result SpecError Scheme
from_cli_prefix raw = ok_or (try_from_str raw) (unknown_scheme raw)

-- The name of a scheme names it.
pub try_from_str-as_str : (scheme : Scheme) → try_from_str (as_str scheme) ≡ some scheme
unfolding try_from_str as_str name_eq
try_from_str-as_str serial = refl
try_from_str-as_str udp_server = refl
try_from_str-as_str udp_client = refl
try_from_str-as_str tcp_server = refl
try_from_str-as_str tcp_client = refl
