-- ===== src/Config.antt =====
-- The configuration: `Merge` is src/config.rs with the errors of src/error.rs, `Cli` and `Toml` are
-- src/parsers. Reading argv and the syntax of TOML are of the crates clap and toml; what they
-- give is the input.
pub mod Merge
pub mod Cli
pub mod Toml
mod Tests
