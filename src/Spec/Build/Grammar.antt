-- ===== src/Spec/Build/Grammar.antt =====
-- The string of a spec on the command line and its tokens.
use mavlink_router_rs.Base.{
  ℕ, ◌≡◌, refl, false, Option, none, some, List, [], ◌∷◌, ◌++◌, Name, name_key,
}
use mavlink_router_rs.Base.Results.{All}
use mavlink_router_rs.Base.Table.{Unique}
use mavlink_router_rs.Base.Text.{contains_char}
use mavlink_router_rs.Base.Text.Splits.{split_once-append, split_once_free}
use mavlink_router_rs.Endpoint.Filters.{is_empty}
use mavlink_router_rs.Spec.Address.{IpAddr}
use mavlink_router_rs.Spec.Body.{split_body_name_query}
use mavlink_router_rs.Spec.Build.{build, parse_rest, parse}
use mavlink_router_rs.Spec.Error.{
  Scheme, serial, udp_server, udp_client, tcp_server, tcp_client, as_str, from_cli_prefix,
  try_from_str-as_str,
}
use mavlink_router_rs.Spec.Query.{parse_query_pairs}
use mavlink_router_rs.Spec.Query.Laws.{render_pairs, IsPair, parse_query_pairs-render}

as_str_plain :
    (scheme : Scheme)
    → (contains_char b':' (as_str scheme) ≡ false) × (is_empty (as_str scheme) ≡ false)
unfolding as_str
as_str_plain serial = (refl, refl)
as_str_plain udp_server = (refl, refl)
as_str_plain udp_client = (refl, refl)
as_str_plain tcp_server = (refl, refl)
as_str_plain tcp_client = (refl, refl)

split_written :
    (body name query : Name)
    → contains_char b'#' body ≡ false
    → contains_char b'?' name ≡ false
    → split_body_name_query (body ++ b'#' ∷ (name ++ b'?' ∷ query)) ≡ (body, some name, some query)
unfolding split_body_name_query
split_written body name query h g =
    rw (split_once-append b'#' body (name ++ b'?' ∷ query) h, split_body_name_query)
      (rw (split_once-append b'?' name query g) refl)

split_plain :
    (body : Name)
    → contains_char b'#' body ≡ false
    → contains_char b'?' body ≡ false
    → split_body_name_query body ≡ (body, none, none)
unfolding split_body_name_query
split_plain body h g =
    rw (split_once_free b'#' body h, split_body_name_query) (rw (split_once_free b'?' body g) refl)

module _ (levenshtein : Name → Name → ℕ) (parse_ip : Name → Option IpAddr)
    (show_ip : IpAddr → Name) where
  parse_scheme :
      (scheme : Scheme) (rest body : Name) (explicit_name query : Option Name)
      → split_body_name_query rest ≡ (body, explicit_name, query)
      → parse levenshtein parse_ip show_ip (as_str scheme ++ b':' ∷ rest)
        ≡ parse_rest levenshtein parse_ip show_ip (as_str scheme) body explicit_name query
  unfolding parse
  parse_scheme scheme rest body explicit_name query h =
      let (free, full) = as_str_plain scheme in
      rw (split_once-append b':' (as_str scheme) rest free, parse) (rw full (rw h refl))

  -- A spec that is written with a name and a query is the spec that is built from its tokens, as
  -- they come from the table of a file: for a body without `#` and `?`, a name without `?`, and
  -- pairs that can be written and have no key twice.
  pub parse_written :
      (scheme : Scheme) (body name : Name) (pair : Name × Name) (pairs : List (Name × Name))
      → contains_char b'#' body ≡ false
      → contains_char b'?' body ≡ false
      → contains_char b'?' name ≡ false
      → All IsPair (pair ∷ pairs)
      → Unique (pair ∷ pairs)
      → parse levenshtein parse_ip show_ip
          (as_str scheme ++ b':' ∷ (body ++ b'#' ∷ (name ++ b'?' ∷ render_pairs pair pairs)))
        ≡ build levenshtein parse_ip show_ip scheme body (some name) (pair ∷ pairs)
  unfolding parse_rest from_cli_prefix
  parse_written scheme body name pair pairs hash question clean writable unique =
      rw
        (parse_scheme scheme _ body _ _
          (split_written body name (render_pairs pair pairs) hash clean))
        (rw question (
          rw (parse_query_pairs-render pair pairs writable unique)
            (rw (try_from_str-as_str scheme) refl)))

  -- A spec that is written with neither is built with no pairs, under its default name.
  pub parse_plain :
      (scheme : Scheme) (body : Name)
      → contains_char b'#' body ≡ false
      → contains_char b'?' body ≡ false
      → parse levenshtein parse_ip show_ip (as_str scheme ++ b':' ∷ body)
        ≡ build levenshtein parse_ip show_ip scheme body none []
  unfolding parse_rest from_cli_prefix parse_query_pairs
  parse_plain scheme body hash question =
      rw (parse_scheme scheme _ body _ _ (split_plain body hash question))
        (rw question (rw (try_from_str-as_str scheme) refl))
