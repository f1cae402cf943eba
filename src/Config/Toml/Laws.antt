-- ===== src/Config/Toml/Laws.antt =====
-- The body that is synthesised from a table's fields is read back as these fields.
use mavlink_router_rs.Base.{
  ℕ, ◌≤◌, ◌≡◌, refl, sym, ap, ◌∙◌, subst, false, Option, none, some, List, [], ◌∷◌, ◌++◌,
  if◌then◌else◌, Name, arith, Bool-cases, inl, inr, suc, zero,
}
use mavlink_router_rs.Base.Results.{
  Result, ok, err, ◌>>=◌, ok_or, map_err, bind_eq_ok, then_eq_ok, OnOk-elim,
}
use mavlink_router_rs.Base.Text.{text, contains_char, strip_prefix}
use mavlink_router_rs.Base.Text.Decimal.{show_unsigned}
use mavlink_router_rs.Config.Merge.{Error, spec_in_toml}
use mavlink_router_rs.Config.Toml.{
  TomlEndpoint, scheme_from_toml_type, serial_body, host_port_body, synthesize_body,
  reject_disallowed_fields, collect_pairs, into_spec, missing,
}
use mavlink_router_rs.Spec.Address.{IpAddr}
use mavlink_router_rs.Spec.Body.{u16_max, parse_serial_body, parse_host_port, parse_listen_addr}
use mavlink_router_rs.Spec.Body.Laws.{
  parse_serial_body_written, parse_serial_body_empty_path, parse_serial_body_zero,
  parse_host_port_plain, parse_host_port_bracketed, parse_host_port_empty_host,
}
use mavlink_router_rs.Spec.Build.{EndpointSpec, parse_kind, spec_name, build}
use mavlink_router_rs.Spec.Build.Kinds.{IsKind, parse_kind-IsKind}
use mavlink_router_rs.Spec.Error.{
  Scheme, serial, udp_server, udp_client, tcp_server, tcp_client, SpecError, try_from_str,
}
use mavlink_router_rs.Spec.FilterLists.{u32_max}
use mavlink_router_rs.Spec.Kinds.{
  EndpointKind, serial_kind, udp_server_kind, udp_client_kind, tcp_server_kind, tcp_client_kind,
  scheme_of,
}
use mavlink_router_rs.Spec.Names.{validate_name}

abbrev pub AtMost : ℕ → Option ℕ → Type 0
AtMost limit none = Unit
AtMost limit (some n) = n ≤ limit

-- A host that does not begin with `[` and has no `]`.
abbrev pub IsUnbracketed : Option Name → Type 0
IsUnbracketed none = Unit
IsUnbracketed (some host) = (strip_prefix b'[' host ≡ none) × (contains_char b']' host ≡ false)

-- The numbers of a table within the types that the TOML crate reads them with.
pub record IsTyped (entry : TomlEndpoint) : Type 0 where
  pub baud_bounded : AtMost u32_max entry.baud
  pub port_bounded : AtMost u16_max entry.port

serial_body-reads :
    (name : Name) (entry : TomlEndpoint) (body path : Name) (baud : ℕ)
    → AtMost u32_max entry.baud
    → serial_body name entry ≡ ok body
    → parse_serial_body body ≡ ok (path, baud)
    → (entry.path ≡ some path) × (entry.baud ≡ some baud)
unfolding serial_body
serial_body-reads name entry body path baud bounded h reads = go entry.path entry.baud bounded h
  where
    parts_are :
        (p : Name) (b : ℕ)
        → b ≤ u32_max
        → parse_serial_body (p ++ b':' ∷ show_unsigned b) ≡ ok (path, baud)
        → (p ≡ path) × (b ≡ baud)
    parts_are [] b l r = absurd (ground (arith, parse_serial_body_empty_path b, r))
    parts_are (c ∷ p) zero l r = absurd (ground (arith, parse_serial_body_zero c p, r))
    parts_are (c ∷ p) (suc b) l r =
        let back = parse_serial_body_written (c ∷ p) (suc b) refl (omega arith) l in ground arith

    go :
        (p : Option Name) (b : Option ℕ)
        → AtMost u32_max b
        → (do
          path ← ok_or p (missing name serial (text "path"))
          baud ← ok_or b (missing name serial (text "baud"))
          ok (path ++ b':' ∷ show_unsigned baud))
          ≡ ok body
        → (p ≡ some path) × (b ≡ some baud)
    go none b l e = absurd (cc)
    go (some p) none l e = absurd (cc)
    go (some p) (some b) l e =
        let same : p ++ b':' ∷ show_unsigned b ≡ body = cc in
        let parts = parts_are p b l (rw same reads) in (cc (parts.0), cc (parts.1))

host_port_body-reads :
    (name : Name) (scheme : Scheme) (entry : TomlEndpoint) (body host : Name) (port : ℕ)
    → AtMost u16_max entry.port
    → IsUnbracketed entry.host
    → host_port_body name scheme entry ≡ ok body
    → parse_host_port body scheme ≡ ok (host, port)
    → (entry.host ≡ some host) × (entry.port ≡ some port)
unfolding host_port_body
host_port_body-reads name scheme entry body host port bounded plain h reads =
    go entry.host entry.port bounded plain h
  where
    written : Name → ℕ → Name
    written h p =
        if contains_char b':' h
        then b'[' ∷ (h ++ b']' ∷ b':' ∷ show_unsigned p)
        else h ++ b':' ∷ show_unsigned p

    parts_are :
        (h : Name) (p : ℕ)
        → p ≤ u16_max
        → IsUnbracketed (some h)
        → parse_host_port (written h p) scheme ≡ ok (host, port)
        → (h ≡ host) × (p ≡ port)
    parts_are [] p l u r = absurd (ground (arith, parse_host_port_empty_host p scheme, r))
    parts_are (c ∷ h) p l u r = elim (Bool-cases (contains_char b':' (c ∷ h))) [
      | inl colon ↦ let back = parse_host_port_bracketed (c ∷ h) p scheme refl u.1 l in ground arith
      | inr free ↦
          let back = parse_host_port_plain (c ∷ h) p scheme (refl, free, u.0) l in ground arith
    ]

    go :
        (h : Option Name) (p : Option ℕ)
        → AtMost u16_max p
        → IsUnbracketed h
        → (do
          host ← ok_or h (missing name scheme (text "host"))
          port ← ok_or p (missing name scheme (text "port"))
          ok (written host port))
          ≡ ok body
        → (h ≡ some host) × (p ≡ some port)
    go none p l u e = absurd (cc)
    go (some h) none l u e = absurd (cc)
    go (some h) (some p) l u e =
        let same : written h p ≡ body = cc in
        let parts = parts_are h p l u (rw same reads) in (cc (parts.0), cc (parts.1))

-- The endpoint has the address that stands in the table's fields.
abbrev pub Declares : (Name → Option IpAddr) → TomlEndpoint → EndpointKind → Type 0
Declares parse_ip entry (serial_kind e) = (entry.path ≡ some e.path) × (entry.baud ≡ some e.baud)
Declares parse_ip entry (udp_server_kind e) =
    (bind : Name) × (entry.bind ≡ some bind)
    × (parse_listen_addr parse_ip bind udp_server ≡ ok e.bind_addr)
Declares parse_ip entry (udp_client_kind e) =
    (entry.host ≡ some e.host) × (entry.port ≡ some e.port)
Declares parse_ip entry (tcp_server_kind e) =
    (bind : Name) × (entry.bind ≡ some bind)
    × (parse_listen_addr parse_ip bind tcp_server ≡ ok e.bind_addr)
Declares parse_ip entry (tcp_client_kind e) =
    (entry.host ≡ some e.host) × (entry.port ≡ some e.port)

ok_or-some : {A : Type 0} (o : Option A) (e : Error) {a : A} → ok_or o e ≡ ok a → o ≡ some a
ok_or-some none e h = cc
ok_or-some (some b) e h = cc

map_err-ok :
    {A : Type 0} (f : SpecError → Error) (r : Result SpecError A) {a : A}
    → map_err f r ≡ ok a
    → r ≡ ok a
map_err-ok f (ok b) h = cc
map_err-ok f (err e) h = cc

module _ (parse_ip : Name → Option IpAddr) (name : Name) (entry : TomlEndpoint) (v : IsTyped entry)
    (plain : IsUnbracketed entry.host) (body : Name) where
  synthesize_body-Declares :
      (scheme : Scheme) (kind : EndpointKind)
      → synthesize_body name scheme entry ≡ ok body
      → IsKind parse_ip scheme body kind
      → Declares parse_ip entry kind
  unfolding synthesize_body scheme_of
  synthesize_body-Declares serial (serial_kind e) s k =
      serial_body-reads name entry body e.path e.baud v.baud_bounded s k.reads
  synthesize_body-Declares udp_server (udp_server_kind e) s k =
      (body, ok_or-some entry.bind _ s, k.reads)
  synthesize_body-Declares udp_client (udp_client_kind e) s k =
      host_port_body-reads name udp_client entry body e.host e.port v.port_bounded plain s k.reads
  synthesize_body-Declares tcp_server (tcp_server_kind e) s k =
      (body, ok_or-some entry.bind _ s, k.reads)
  synthesize_body-Declares tcp_client (tcp_client_kind e) s k =
      host_port_body-reads name tcp_client entry body e.host e.port v.port_bounded plain s k.reads
  synthesize_body-Declares _ _ s k = absurd (cc (k.scheme_is))

module _ (levenshtein : Name → Name → ℕ) (parse_ip : Name → Option IpAddr)
    (show_ip : IpAddr → Name) where
  build_parts :
      (scheme : Scheme) (body name : Name) (pairs : List (Name × Name)) {spec : EndpointSpec}
      → build levenshtein parse_ip show_ip scheme body (some name) pairs ≡ ok spec
      → IsKind parse_ip scheme body spec.kind × (spec.name ≡ name)
  unfolding build spec_name
  build_parts scheme body name pairs {spec = spec} h =
      let (kind, read, h₁) =
        bind_eq_ok (parse_kind levenshtein parse_ip show_ip scheme body pairs) _ h in
      let is_kind =
        OnOk-elim (IsKind parse_ip scheme body) _
          (parse_kind-IsKind levenshtein parse_ip show_ip body pairs scheme) read in
      let (given, spelled, h₂) =
        bind_eq_ok (spec_name levenshtein parse_ip show_ip (some name) kind) _ h₁ in
      let (u, valid, h₃) = then_eq_ok (validate_name name) (ok name) spelled in
      let whole : spec ≡ record { kind = kind; name = given } = cc in
      let same : given ≡ name = cc in
      (
        subst (IsKind parse_ip scheme body) (sym (ap (λ s. s.kind) whole)) is_kind,
        ap (λ s. s.name) whole ∙ same,
      )

  -- A table of the file that is accepted, with a rate and a port within their types and a host
  -- that neither begins with an opening bracket nor has a closing one, gives an endpoint of the
  -- table's type and name, and with the address that stands in its fields: the device and the rate,
  -- the host and the port, or the address that its `bind` spells.
  pub into_spec-Declares :
      (name : Name) (entry : TomlEndpoint) {spec : EndpointSpec}
      → IsTyped entry
      → IsUnbracketed entry.host
      → into_spec levenshtein parse_ip show_ip name entry ≡ ok spec
      → (try_from_str entry.scheme ≡ some (scheme_of spec.kind))
        × (spec.name ≡ name)
        × Declares parse_ip entry spec.kind
  unfolding into_spec scheme_from_toml_type
  into_spec-Declares name entry {spec = spec} v plain h =
      let (scheme, typed, h₁) = bind_eq_ok (scheme_from_toml_type entry.scheme name) _ h in
      let (u, allowed, h₂) = then_eq_ok (reject_disallowed_fields name scheme entry) _ h₁ in
      let (body, written, h₃) = bind_eq_ok (synthesize_body name scheme entry) _ h₂ in
      let built = map_err-ok (spec_in_toml name) _ h₃ in
      let (is_kind, named) =
        build_parts scheme body name (collect_pairs entry) {spec = spec} built in
      (
        ok_or-some (try_from_str entry.scheme) _ typed ∙ ap some (sym is_kind.scheme_is),
        named,
        synthesize_body-Declares parse_ip name entry v plain body scheme spec.kind written is_kind,
      )
