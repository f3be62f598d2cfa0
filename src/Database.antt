-- ===== src/Database.antt =====
-- internal/database: the database service, its client, and the client that coordinates a
-- Two-Phase Commit over several servers.
pub mod Service
pub mod Client
pub mod Coordinator
pub mod Statistics
pub mod Connection
pub mod Fixtures
mod Tests
mod ServiceTests
mod ClientTests
