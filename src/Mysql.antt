-- ===== src/Mysql.antt =====
-- The MySQL data store (dbmanager/mysql).
pub mod Schema
pub mod Conn
pub mod Sql
pub mod Tx
pub mod Util
pub mod Rv
pub mod Existence
pub mod Bind
pub mod Update
pub mod Delete
pub mod Insert
pub mod View
pub mod Orders
pub mod Tests
pub mod Manager
pub mod Setup
pub mod Testing
