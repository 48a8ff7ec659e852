-- ===== src/Fleet.antt =====
-- internal/fleet: the in-memory registry of OpAMP agents and the views of an agent.
-- `Types` has the data, `Report` the fold of one message into one agent, `Registry` the sharded
-- registry and its operations, `Events` what the listeners are told, `View` the presentation.
pub mod Types
pub mod Report
pub mod Registry
pub mod Events
pub mod View
pub mod Stats
pub mod Tests
