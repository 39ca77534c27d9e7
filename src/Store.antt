-- ===== src/Store.antt =====
-- services/manager-web/metadata_store.py, the store that every service works on.
pub mod Rows
pub mod Error
pub mod Jobs
pub mod Ports
pub mod Instances
pub mod Lifecycle
pub mod Provisioning
pub mod Operations
pub mod Members
pub mod Sessions
pub mod Users
pub mod Legacy
pub mod Credentials
pub mod Tests
