-- ===== src/Persistence.antt =====
-- internal/persistence: the Postgres store, the dirty-tracked flush of the registry, and the
-- session snapshots. `Write` has the helpers of write.go.
pub mod Concurrent
pub mod Write
pub mod Store
pub mod Connections
pub mod Flush
pub mod Session
pub mod Jobs
pub mod Permissions
mod Tests
