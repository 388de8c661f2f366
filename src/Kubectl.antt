-- ===== src/Kubectl.antt =====
-- The package kubectl, by which the tests make and change the resources of a cluster. Its modules:
-- Host, the file system and the command; Config, resource_writer.go's variables; Write, the rest of
-- resource_writer.go; Utils, utils.go; Create, creator.go; Update, updater.go.
pub mod Host
pub mod Config
pub mod Utils
pub mod Write
pub mod Create
pub mod Update
pub mod Deploy
pub mod Volumes
pub mod Storage
pub mod Cleanup
pub mod Reading
pub mod Tests
