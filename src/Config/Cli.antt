-- ===== src/Config/Cli.antt =====
-- The command line behind clap: src/parsers/cli.rs.
use mavlink_router_rs.Base.{
  ℕ, suc, Bool, true, Option, none, some, List, [], ◌∷◌, if◌then◌else◌, Name,
}
use mavlink_router_rs.Base.Results.{Result, ok, ◌>>=◌, map_err}
use mavlink_router_rs.Config.Merge.{LogLevel, LogFormat, Error, spec_in_arg, CliConfig}
use mavlink_router_rs.Spec.Address.{IpAddr}
use mavlink_router_rs.Spec.Build.{EndpointSpec, parse}

-- The parsed argv, less the path of the file and the flag of a dry run, which `main` reads.
pub record Cli : Type 0 where
  pub log_level : Option LogLevel
  pub log_format : Option LogFormat
  pub stats : Bool
  pub stats_interval_secs : Option ℕ
  pub dedup_ms : Option ℕ
  pub skip_config_log : Bool
  pub endpoints : List Name

module _ (levenshtein : Name → Name → ℕ) (parse_ip : Name → Option IpAddr)
    (show_ip : IpAddr → Name) where
  -- The loop of `parse_specs`, from an index on.
  unfoldable pub specs_from : ℕ → List Name → Result Error (List EndpointSpec)
  specs_from index [] = ok []
  specs_from index (arg ∷ args) = do
    spec ← map_err (spec_in_arg index arg) (parse levenshtein parse_ip show_ip arg)
    rest ← specs_from (suc index) args
    ok (spec ∷ rest)

  unfoldable pub parse_specs : List Name → Result Error (List EndpointSpec)
  parse_specs raw = specs_from 0 raw

  unfoldable pub into_cli_config : Cli → Result Error CliConfig
  into_cli_config cli = do
    endpoints ← parse_specs cli.endpoints
    ok (record {
      log_level = cli.log_level;
      log_format = cli.log_format;
      stats = if cli.stats then some true else none;
      stats_interval_secs = cli.stats_interval_secs;
      dedup_ms = cli.dedup_ms;
      skip_config_log = if cli.skip_config_log then some true else none;
      endpoints = endpoints;
    })
