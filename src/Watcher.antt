-- ===== src/Watcher.antt =====
-- watcher.go: the watcher, whose handlers pass the events on to a data store.
pub mod Handlers
pub mod Loop
pub mod Mounts
pub mod Channels
pub mod Connection
pub mod Resume
pub mod Tests
