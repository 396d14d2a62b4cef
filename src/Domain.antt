-- ===== src/Domain.antt =====
-- Types of crates/launcher-domain that several parts share.
pub mod Command
pub mod Semantics
pub mod Policy
pub mod Expr
pub mod Capability
pub mod Action
pub mod Definition
pub mod Tests
