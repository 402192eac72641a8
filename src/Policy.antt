-- ===== src/Policy.antt =====
-- crates/wiremesh-policy: the policy DSL, its validation, and its compilation to the policy IR.
pub mod Ir
pub mod Dsl
pub mod Numbers
pub mod Validate
pub mod RuleId
pub mod Limits
pub mod Compile
pub mod Parse
