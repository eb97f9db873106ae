-- ===== src/Provision.antt =====
-- internal/pkg/provider/provision.go
pub mod Tasks
pub mod Pools
pub mod Options
pub mod Placement
pub mod Create
pub mod Steps
pub mod Teardown
pub mod Run
pub mod Fleet
pub mod Example
mod Tests
