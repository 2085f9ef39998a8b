-- ===== src/Session.antt =====
-- The sessions of authenticated users: the registry that issues them, the names that they once
-- claimed, and the connections that they are bound to.
pub mod Aliases
pub mod Registry
pub mod Lifecycle
