-- ===== src/Api.antt =====
-- internal/api: the read API over the registry and the store, and the creation of jobs.
pub mod Filter
pub mod Parse
pub mod Merge
pub mod Page
pub mod Paginate
pub mod Attributes
pub mod Handler
pub mod Listing
pub mod Jobs
mod Tests
