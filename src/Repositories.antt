-- ===== src/Repositories.antt =====
-- src/repositories: the statements of the SQLAlchemy repositories on the tables of `Db`, the
-- constraints of src/models included.
pub mod Query
pub mod UserVks
pub mod Confirmations
pub mod Logs
pub mod Deliveries
pub mod Selected
pub mod Uncommitted
