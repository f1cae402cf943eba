-- ===== src/Spec/Query.antt =====
-- The query string of a spec and the keys that each scheme takes: src/endpoint/spec/query.rs and
-- src/endpoint/spec/bounds.rs. The distance of two keys is of the crate strsim, `levenshtein`.
pub mod Laws
pub mod Keys
pub mod Settings
use mavlink_router_rs.Base.{
  ℕ, ◌||◌, Bool, true, false, Option, none, some, List, [], ◌∷◌, ◌++◌, map, leb, ltb, any,
  if◌then◌else◌, Name, name_eq, u64_max,
}
use mavlink_router_rs.Base.Entries.{min_by_key}
use mavlink_router_rs.Base.Results.{Result, ok, err, ◌>>=◌, ◌>>◌, ok_or}
use mavlink_router_rs.Base.Text.{text, split, split_once, to_ascii_lowercase}
use mavlink_router_rs.Base.Text.Decimal.{parse_unsigned}
use mavlink_router_rs.Endpoint.Filters.{IdentityFlags, is_empty}
use mavlink_router_rs.Spec.Error.{
  Scheme, serial, udp_server, udp_client, tcp_server, tcp_client, SpecError, malformed_query,
  duplicate_query_key, unknown_query_key, invalid_query_value, no_equals, empty_key,
  not_flow_control, not_integer, out_of_range,
}
use mavlink_router_rs.Spec.FilterLists.{Parsed, assign, apply_identity, identity_keys, filter_keys}
use mavlink_router_rs.Spec.Kinds.{
  SerialFlowControl, no_flow_control, rts_cts, SerialEndpoint, UdpServerEndpoint, UdpClientEndpoint,
  TcpServerEndpoint, TcpClientEndpoint,
}

-- `MIN_IDLE_SECS` and `MAX_IDLE_SECS`, which are also those of the latch.
abbrev pub min_idle_secs : ℕ
min_idle_secs = 1

abbrev pub max_idle_secs : ℕ
max_idle_secs = 86400

abbrev pub min_latch_idle_secs : ℕ
min_latch_idle_secs = 1

abbrev pub max_latch_idle_secs : ℕ
max_latch_idle_secs = 86400

unfoldable pub known_keys_for : Scheme → List Name
known_keys_for serial = text "flow_control" ∷ []
known_keys_for udp_server = text "idle_secs" ∷ []
known_keys_for udp_client = text "latch_idle_secs" ∷ []
known_keys_for tcp_server = []
known_keys_for tcp_client = []

-- One piece between two `&`: its key in lower case, and its value.
unfoldable pub read_pair : Name → Parsed (Name × Name)
read_pair pair = do
  parts ← ok_or (split_once b'=' pair) (malformed_query (no_equals pair))
  if is_empty parts.0
      then err (malformed_query (empty_key pair))
      else ok (map to_ascii_lowercase parts.0, parts.1)

-- The loop over the pieces, behind the keys that were seen.
unfoldable pub pairs_from : (seen pieces : List Name) → Parsed (List (Name × Name))
pairs_from seen [] = ok []
pairs_from seen (piece ∷ more) =
    let skipped = pairs_from seen more in
    if is_empty piece then skipped else do
      pair ← read_pair piece
      elim (any (name_eq pair.0) seen) [
        | true ↦ err (duplicate_query_key pair.0)
        | false ↦ do rest ← pairs_from (pair.0 ∷ seen) more; ok (pair ∷ rest)
      ]

unfoldable pub parse_query_pairs : Name → Parsed (List (Name × Name))
parse_query_pairs s = if is_empty s then ok [] else pairs_from [] (split b'&' s)

unfoldable pub check_u64_range : (value : ℕ) (key : Name) (min max : ℕ) → Parsed ℕ
check_u64_range value key min max =
    if ltb value min || ltb max value
    then err (invalid_query_value key (out_of_range min max value))
    else ok value

unfoldable pub parse_u64 : (value key : Name) → Parsed ℕ
parse_u64 value key =
    ok_or (parse_unsigned u64_max value) (invalid_query_value key (not_integer value))

unfoldable pub parse_flow_control : Name → Parsed SerialFlowControl
parse_flow_control value =
    if name_eq value (text "none")
    then ok no_flow_control
    else if name_eq value (text "rtscts")
    then ok rts_cts
    else err (invalid_query_value (text "flow_control") (not_flow_control value))

-- `QueryApplier`: the endpoint with the key set, and whether the key was known.
abbrev pub Applier : Type 0 → Type 0
Applier A = (key value : Name) → A → Parsed (A × Bool)

-- `IdentityFlags::set` through the field `identity` of an endpoint.
abbrev through {ℓ} :
    {A : Type ℓ}
    → IdentityFlags
    → (IdentityFlags → A)
    → (key value : Name) → Result SpecError (A × Bool)
through flags put key value = do
  applied ← apply_identity key value flags
  ok (put applied.0, applied.1)

unfoldable pub set_serial : Applier SerialEndpoint
set_serial key value e =
    if name_eq key (text "flow_control")
    then assign (parse_flow_control value) (λ mode. record e { flow_control = mode })
    else through e.identity (λ flags. record e { identity = flags }) key value

-- A number of seconds within its bounds.
unfoldable pub seconds : (value key : Name) (min max : ℕ) → Parsed ℕ
seconds value key min max = do secs ← parse_u64 value key; check_u64_range secs key min max

unfoldable pub set_udp_server : Applier UdpServerEndpoint
set_udp_server key value e =
    if name_eq key (text "idle_secs")
    then assign (seconds value key min_idle_secs max_idle_secs)
        (λ secs. record e { idle_secs = some secs })
    else through e.identity (λ flags. record e { identity = flags }) key value

unfoldable pub set_udp_client : Applier UdpClientEndpoint
set_udp_client key value e =
    if name_eq key (text "latch_idle_secs")
    then assign (seconds value key min_latch_idle_secs max_latch_idle_secs)
        (λ secs. record e { latch_idle_secs = some secs })
    else through e.identity (λ flags. record e { identity = flags }) key value

unfoldable pub set_tcp_server : Applier TcpServerEndpoint
set_tcp_server key value e = through e.identity (λ flags. record e { identity = flags }) key value

unfoldable pub set_tcp_client : Applier TcpClientEndpoint
set_tcp_client key value e = through e.identity (λ flags. record e { identity = flags }) key value

module _ (levenshtein : Name → Name → ℕ) where
  -- The keys within a distance of four, with their distance.
  unfoldable pub near : Name → List Name → List (Name × ℕ)
  near unknown [] = []
  near unknown (key ∷ keys) =
      let rest = near unknown keys in
      if leb (levenshtein unknown key) 4 then (key, levenshtein unknown key) ∷ rest else rest

  unfoldable pub suggest_query_key : Scheme → Name → Option Name
  suggest_query_key scheme unknown =
      elim (min_by_key (λ p. p.1)
        (near unknown (identity_keys ++ (filter_keys ++ known_keys_for scheme)))) [
          | none ↦ none
          | some (i, (key, distance)) ↦ some key
        ]

  -- Behind one applied pair: on with the rest, if the key was known.
  abbrev pub handled : {A : Type 0} → Scheme → Name → Parsed (A × Bool) → (A → Parsed A) → Parsed A
  handled scheme key (ok (e, true)) rest = rest e
  handled scheme key (ok (e, false)) rest =
      err (unknown_query_key scheme key (suggest_query_key scheme key))
  handled scheme key (err x) rest = err x

  unfoldable pub apply_pairs : {A : Type 0} → Applier A → Scheme → List (Name × Name) → A → Parsed A
  apply_pairs set scheme [] e = ok e
  apply_pairs set scheme ((key, value) ∷ pairs) e =
      handled scheme key (set key value e) (apply_pairs set scheme pairs)
