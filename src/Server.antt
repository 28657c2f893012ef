-- ===== src/Server.antt =====
-- internal/app/server/app.go and cmd/main.go: the application, how it is put together, how it runs
-- and stops, and the writer that takes gin's own messages.
pub mod Lifecycle
pub mod Channel
pub mod Closing
pub mod Progress
pub mod Messages
pub mod Application
pub mod Engine
