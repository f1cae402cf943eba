-- ===== src/Spec.antt =====
-- Endpoint specs: src/endpoint/spec with the parsers of src/endpoint/filters.rs and
-- src/endpoint/identity_flags.rs, which its query keys reach. `Error` has the schemes and the
-- errors, `Names` the check of names, `FilterLists` the values of filters and of identity keys, `Kinds`
-- the kinds of endpoints, `Query` the query string, `Body` the addresses, and `Build` the whole spec.
pub mod Error
pub mod Names
pub mod FilterLists
pub mod Address
pub mod Kinds
pub mod Query
pub mod Body
pub mod Build
mod Tests
