-- ===== src/Store.antt =====
-- internal/infrastructure/sqlite: the tables of packet issuance and the operations on them.
pub mod Db
pub mod Tables
pub mod Feed
pub mod Changes
pub mod Publish
pub mod Retention
pub mod Operations
pub mod Members
pub mod Registrations
pub mod Journal
pub mod Site
mod Tests
