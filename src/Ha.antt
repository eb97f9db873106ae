-- ===== src/Ha.antt =====
-- internal/pkg/provider/ha/manager.go
pub mod Options
pub mod Classify
pub mod Names
pub mod Members
pub mod Rules
pub mod Steps
pub mod Example
mod Tests
