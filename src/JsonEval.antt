-- ===== src/JsonEval.antt =====
-- json_eval.py: modules of a Coq extraction in JSON, and the reduction of their terms.
pub mod Modules
pub mod Subst
pub mod Reduce
pub mod ReduceLaws
pub mod Beta
pub mod Rename
pub mod Load
pub mod RenameLaws
pub mod Bound
pub mod Distinct
pub mod NewNames
pub mod Size
pub mod Fuel
mod Tests
