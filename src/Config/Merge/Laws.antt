-- ===== src/Config/Merge/Laws.antt =====
-- What a merged configuration satisfies, when the merge succeeds, and how it fails.
use mavlink_router_rs.Base.{
  ◌≤◌, ◌≡◌, ◌↔◌, refl, sym, ◌∙◌, ap, subst, true, Option, none, some, List, [], ◌∷◌, any, Name,
  name_eq, arith, Bool-cases, inl, inr,
}
use mavlink_router_rs.Base.Results.{Result, ok, err, ◌>>◌, All, then_eq_ok}
use mavlink_router_rs.Config.Merge.{
  Config, MergeOutcome, CliConfig, TomlConfig, Error, duplicate_name, names, check_unique_names,
  known_entries, known_references, validate_endpoint_references, merge_endpoints, validate,
  resolved, merge_sources, merge, max_dedup_ms, min_stats_interval_secs,
}
use mavlink_router_rs.Config.Merge.Names.{
  count, lookup, DistinctNames, check_unique_names_ok, check_unique_names-Distinct,
  check_unique_names_error, lookup-merge_endpoints, merge_endpoints-DistinctNames,
}
use mavlink_router_rs.Spec.Build.{EndpointSpec}
use mavlink_router_rs.Spec.FilterLists.{src_endpoint_out_entries}
use mavlink_router_rs.Spec.Kinds.{identity_of}

abbrev entries_of : EndpointSpec → List (Name × Name)
entries_of endpoint =
    let flags = identity_of endpoint.kind in src_endpoint_out_entries flags.filters

-- Every entry of every filter names one of the endpoints.
abbrev pub Refers : List Name → List EndpointSpec → Type 0
Refers known endpoints =
    All (λ e. All (λ entry. any (name_eq entry.1) known ≡ true) (entries_of e)) endpoints

known_entries_iff :
    (known : List Name) (name : Name) (entries : List (Name × Name))
    → (known_entries known name entries ≡ ok tt)
      ↔ All (λ entry. any (name_eq entry.1) known ≡ true) entries
unfolding known_entries
known_entries_iff known name [] = (λ h. tt, λ h. refl)
known_entries_iff known name ((axis, referenced) ∷ entries) =
    let rest = known_entries_iff known name entries in
    elim (Bool-cases (any (name_eq referenced) known)) [
      | inl hit ↦ (λ h. (hit, rest.0 (ground (arith, h, hit))), λ all. rw hit (rest.1 all.1))
      | inr miss ↦
          (λ h. absurd (ground (arith, h, miss)), λ all. absurd (ground (arith, all.0, miss)))
    ]

known_references_iff :
    (known : List Name) (endpoints : List EndpointSpec)
    → (known_references known endpoints ≡ ok tt) ↔ Refers known endpoints
unfolding known_references
known_references_iff known [] = (λ h. tt, λ h. refl)
known_references_iff known (e ∷ endpoints) =
    let here = known_entries_iff known e.name (entries_of e) in
    let rest = known_references_iff known endpoints in
    (
      λ h.
          let (u, first, later) = then_eq_ok (known_entries known e.name (entries_of e)) _ h in
          (here.0 first, rest.0 later),
      λ all. rw (here.1 all.0) (rest.1 all.1),
    )

-- A configuration that the program may run with.
pub record IsValidConfig (c : Config) : Type 0 where
  pub dedup_bounded : c.dedup_ms ≤ max_dedup_ms
  pub interval_bounded : min_stats_interval_secs ≤ c.stats_interval_secs
  pub distinct : DistinctNames c.endpoints
  pub references : Refers (names c.endpoints) c.endpoints

pub validate_iff : (c : Config) → (validate c ≡ ok tt) ↔ IsValidConfig c
unfolding validate validate_endpoint_references
validate_iff c = (forth, back)
  where
    checks : Result Error (Unit {0})
    checks = check_unique_names c.endpoints >> known_references (names c.endpoints) c.endpoints

    forth : validate c ≡ ok tt → IsValidConfig c
    forth h =
        let in_order : checks ≡ ok tt = ground (arith, h) in
        let (u, distinct, known) = then_eq_ok (check_unique_names c.endpoints) _ in_order in
        record {
          dedup_bounded = ground (arith, h);
          interval_bounded = ground (arith, h);
          distinct = check_unique_names-Distinct c.endpoints distinct;
          references = (known_references_iff (names c.endpoints) c.endpoints).0 known;
        }

    back : IsValidConfig c → validate c ≡ ok tt
    back v =
        let unique = check_unique_names_ok c.endpoints v.distinct in
        let known = (known_references_iff (names c.endpoints) c.endpoints).1 v.references in
        let dedup = v.dedup_bounded in
        let interval = v.interval_bounded in ground (arith, unique, known, dedup, interval)

merge_sources_parts :
    (toml : TomlConfig) (cli : CliConfig) {outcome : MergeOutcome}
    → merge_sources toml cli ≡ ok outcome
    → (validate (resolved toml cli) ≡ ok tt) × (outcome.config ≡ resolved toml cli)
unfolding merge_sources
merge_sources_parts toml cli h =
    let (u, first, h₁) = then_eq_ok (check_unique_names toml.endpoints) _ h in
    let (v, second, h₂) = then_eq_ok (check_unique_names cli.endpoints) _ h₁ in
    let (w, valid, h₃) = then_eq_ok (validate (resolved toml cli)) _ h₂ in
    (ground (arith, valid), ground (arith, h₃))

-- A merge that succeeds gives a configuration with the dedup window and the interval of the
-- statistics within their limits, with no two endpoints of one name, and with no filter that names
-- an endpoint that is not there.
pub merge-IsValidConfig :
    (source : Option TomlConfig) (cli : CliConfig) {outcome : MergeOutcome}
    → merge source cli ≡ ok outcome
    → IsValidConfig outcome.config
unfolding merge
merge-IsValidConfig none cli h =
    let (valid, same) = merge_sources_parts _ cli h in
    subst IsValidConfig (sym same) ((validate_iff _).0 valid)
merge-IsValidConfig (some toml) cli h =
    let (valid, same) = merge_sources_parts toml cli h in
    subst IsValidConfig (sym same) ((validate_iff _).0 valid)

-- A merge of a file and the command line that succeeds gives every name the endpoint of the
-- command line, if it has one of that name, and else that of the file: as maps from names to
-- endpoints, the command line overrides the file.
pub lookup-merge :
    (toml : TomlConfig) (cli : CliConfig) (name : Name) {outcome : MergeOutcome}
    → merge (some toml) cli ≡ ok outcome
    → lookup name outcome.config.endpoints
      ≡ elim (lookup name cli.endpoints) as (λ _. Option EndpointSpec) [
        | some e ↦ some e
        | none ↦ lookup name toml.endpoints
      ]
unfolding merge resolved
lookup-merge toml cli name h =
    let (valid, same) = merge_sources_parts toml cli h in
    ap (λ config. lookup name config.endpoints) same
    ∙ lookup-merge_endpoints name toml.endpoints cli.endpoints

-- A file in which two endpoints have one name is refused with an error that names a name which
-- at least two endpoints of the file have, even if the command line overrides every endpoint of it.
pub merge-duplicate_name :
    (toml : TomlConfig) (cli : CliConfig)
    → ¬ DistinctNames toml.endpoints
    → (name : Name) × (merge (some toml) cli ≡ err (duplicate_name name))
      × 2 ≤ count name (names toml.endpoints)
unfolding merge merge_sources
merge-duplicate_name toml cli twice =
    let (name, found, often) = check_unique_names_error toml.endpoints twice in
    (name, rw found refl, often)

-- The merge succeeds whenever no source has a name twice, the numbers that prevail are within
-- their limits, and every entry of a filter names an endpoint of one of the sources.
pub merge_succeeds :
    (toml : TomlConfig) (cli : CliConfig)
    → DistinctNames toml.endpoints
    → DistinctNames cli.endpoints
    → (resolved toml cli).dedup_ms ≤ max_dedup_ms
    → min_stats_interval_secs ≤ (resolved toml cli).stats_interval_secs
    → Refers
        (names (merge_endpoints toml.endpoints cli.endpoints).0)
        (merge_endpoints toml.endpoints cli.endpoints).0
    → (outcome : MergeOutcome) × (merge (some toml) cli ≡ ok outcome)
unfolding merge merge_sources
merge_succeeds toml cli t c dedup interval known =
    let valid = (validate_iff (resolved toml cli)).1 (record {
      dedup_bounded = dedup;
      interval_bounded = interval;
      distinct = unfold resolved in merge_endpoints-DistinctNames toml.endpoints cli.endpoints t c;
      references = unfold resolved in known;
    }) in
    (
      record {
        config = resolved toml cli;
        overridden_names = (merge_endpoints toml.endpoints cli.endpoints).1;
      },
      rw (check_unique_names_ok toml.endpoints t)
          (rw (check_unique_names_ok cli.endpoints c) (rw valid refl)),
    )
