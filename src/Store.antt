-- ===== src/Store.antt =====
-- internal/store: the records, the state of the BoltDB backend, and its methods by subject.
pub mod Types
pub mod State
pub mod Users
pub mod Mappings
pub mod Apps
pub mod Roles
pub mod Tokens
pub mod Audit
pub mod Merge
