-- ===== src/Migration.antt =====
-- src/migration/versions: the tables of the database, as the migrations make them.
pub mod Schema
mod Models
mod Versions
mod RoundTrip
mod Tests
