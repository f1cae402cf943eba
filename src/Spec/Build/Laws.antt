-- ===== src/Spec/Build/Laws.antt =====
-- What a spec that was accepted satisfies.
use mavlink_router_rs.Base.{
  ℕ, ◌≡◌, refl, true, Option, none, some, List, ◌∷◌, Name, arith, Bool-cases, inl, inr,
}
use mavlink_router_rs.Base.Results.{ok, OnOk, OnOk-intro, OnOk-elim, OnOk-bind}
use mavlink_router_rs.Base.Text.{text, contains_char, all, is_ascii_alphanumeric, split_once}
use mavlink_router_rs.Base.Text.Decimal.{is_digit, show_unsigned, all-show_unsigned}
use mavlink_router_rs.Base.Text.Splits.{all-append, all_weaken}
use mavlink_router_rs.Spec.Address.{IpAddr}
use mavlink_router_rs.Spec.Body.{split_body_name_query}
use mavlink_router_rs.Spec.Build.{EndpointSpec, parse_kind, spec_name, build, parse_rest, parse}
use mavlink_router_rs.Spec.Error.{Scheme, from_cli_prefix}
use mavlink_router_rs.Spec.FilterLists.Laws.{IsName, IsValidIdentity}
use mavlink_router_rs.Spec.Kinds.{
  EndpointKind, serial_kind, udp_server_kind, udp_client_kind, tcp_server_kind, tcp_client_kind,
  identity_of, composed_name, default_name,
}
use mavlink_router_rs.Spec.Names.{
  is_name_char, name_matches_regex, validate_name, sanitize_for_name, all-sanitize_for_name,
}
use mavlink_router_rs.Spec.Query.{parse_query_pairs}
use mavlink_router_rs.Spec.Build.Kinds.{HasAddress, IsKind, parse_kind-IsKind}

-- A spec as the rest of the program relies on it.
pub record IsValidSpec (spec : EndpointSpec) : Type 0 where
  pub has_address : HasAddress spec.kind
  pub identity_valid : IsValidIdentity (identity_of spec.kind)
  pub name_valid : IsName spec.name

name_char_digit : (c : ℕ) → is_digit c ≡ true → is_name_char c ≡ true
unfolding is_digit is_name_char is_ascii_alphanumeric
name_char_digit c h = ground arith

all_dash : (s : Name) → all is_name_char s ≡ true → all is_name_char (b'-' ∷ s) ≡ true
unfolding is_name_char is_ascii_alphanumeric
all_dash s h = ground arith

composed_name-all :
    (scheme address : Name) (number : ℕ)
    → all is_name_char scheme ≡ true
    → all is_name_char (composed_name scheme address number) ≡ true
unfolding composed_name
composed_name-all scheme address number h =
    let digits =
      all_weaken is_digit is_name_char name_char_digit (show_unsigned number)
        (all-show_unsigned number) in
    let number_part = all_dash (show_unsigned number) digits in
    let tail =
      all-append is_name_char (sanitize_for_name address) (b'-' ∷ show_unsigned number)
        (all-sanitize_for_name address) number_part in
    all-append is_name_char scheme _ h (all_dash _ tail)

-- The derived name passes the check of explicit names.
pub default_name-IsName :
    (show_ip : IpAddr → Name) (kind : EndpointKind) → IsName (default_name show_ip kind)
unfolding default_name name_matches_regex composed_name
default_name-IsName show_ip (serial_kind e) =
    composed_name-all (text "serial") e.path e.baud
      (unfold is_name_char is_ascii_alphanumeric in refl)
default_name-IsName show_ip (udp_server_kind e) =
    composed_name-all (text "udps") (show_ip e.bind_addr.ip) e.bind_addr.port
      (unfold is_name_char is_ascii_alphanumeric in refl)
default_name-IsName show_ip (udp_client_kind e) =
    composed_name-all (text "udpc") e.host e.port
      (unfold is_name_char is_ascii_alphanumeric in refl)
default_name-IsName show_ip (tcp_server_kind e) =
    composed_name-all (text "tcps") (show_ip e.bind_addr.ip) e.bind_addr.port
      (unfold is_name_char is_ascii_alphanumeric in refl)
default_name-IsName show_ip (tcp_client_kind e) =
    composed_name-all (text "tcpc") e.host e.port
      (unfold is_name_char is_ascii_alphanumeric in refl)

module _ (levenshtein : Name → Name → ℕ) (parse_ip : Name → Option IpAddr)
    (show_ip : IpAddr → Name) where
  spec_name-IsName :
      (explicit_name : Option Name) (kind : EndpointKind)
      → OnOk IsName (spec_name levenshtein parse_ip show_ip explicit_name kind)
  unfolding spec_name validate_name
  spec_name-IsName (some name) kind = ground arith
  spec_name-IsName none kind = default_name-IsName show_ip kind

  pub build-IsValidSpec :
      (scheme : Scheme) (body : Name) (explicit_name : Option Name) (pairs : List (Name × Name))
      → OnOk IsValidSpec (build levenshtein parse_ip show_ip scheme body explicit_name pairs)
  unfolding build
  build-IsValidSpec scheme body explicit_name pairs =
      OnOk-bind (IsKind parse_ip scheme body) IsValidSpec
        (parse_kind levenshtein parse_ip show_ip scheme body pairs) _
        (parse_kind-IsKind levenshtein parse_ip show_ip body pairs scheme)
        (λ kind valid.
          OnOk-bind IsName IsValidSpec (spec_name levenshtein parse_ip show_ip explicit_name kind) _
            (spec_name-IsName explicit_name kind)
            (λ name named. record {
              has_address = valid.has_address;
              identity_valid = valid.identity_valid;
              name_valid = named;
            }))

  parse_rest-IsValidSpec :
      (scheme_str body : Name) (explicit_name query : Option Name)
      → OnOk IsValidSpec
          (parse_rest levenshtein parse_ip show_ip scheme_str body explicit_name query)
  unfolding parse_rest
  parse_rest-IsValidSpec scheme_str body explicit_name query =
      elim (Bool-cases (contains_char b'?' body)) [
        | inl misplaced ↦ rw misplaced tt
        | inr proper ↦ rw proper (
            OnOk-bind (λ pairs. Unit {0}) IsValidSpec (parse_query_pairs _) _
              (OnOk-intro _ (λ a e. tt))
              (λ pairs any.
                OnOk-bind (λ scheme. Unit {0}) IsValidSpec (from_cli_prefix scheme_str) _
                  (OnOk-intro _ (λ a e. tt))
                  (λ scheme any. build-IsValidSpec scheme body explicit_name pairs)))
      ]

  parse-OnOk : (input : Name) → OnOk IsValidSpec (parse levenshtein parse_ip show_ip input)
  unfolding parse
  parse-OnOk input = go (split_once b':' input) refl
    where
      go :
          (o : Option (Name × Name))
          → split_once b':' input ≡ o
          → OnOk IsValidSpec (parse levenshtein parse_ip show_ip input)
      go none e = rw (e, parse) tt
      go (some (scheme_str, rest)) e =
          let parts = split_body_name_query rest in
          let whole = parse_rest-IsValidSpec scheme_str parts.0 parts.1 parts.2 in
          rw (e, parse) (ground (arith, whole))

  -- A spec that is accepted has a device path and a rate above zero, or a host and a port, within
  -- their types; intervals within their bounds; ranges with the lower bound first, within the type
  -- of their axis; and names of endpoints, of a group, and its own, that match the pattern of names.
  pub parse-IsValidSpec :
      (input : Name) {spec : EndpointSpec}
      → parse levenshtein parse_ip show_ip input ≡ ok spec
      → IsValidSpec spec
  parse-IsValidSpec input h = OnOk-elim IsValidSpec _ (parse-OnOk input) h
