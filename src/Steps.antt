-- ===== src/Steps.antt =====
-- The changes that the service makes to the bindings and the codes, as a relation between databases.
pub mod Base
pub mod Effects
