-- ===== src/Models.antt =====
-- The models of SDNSDK/JSONModels: data that are read from JSON.
mod Tests
pub mod Discovery
pub mod Login
pub mod Tokens
pub mod Relations
pub mod Events
pub mod Rooms
pub mod Groups
pub mod PushRules
pub mod KeyBackup
pub mod RoomKeys
pub mod EventLists
pub mod RoomSync
pub mod Sync
pub mod Search
pub mod Capabilities
pub mod Versions
pub mod Contents
pub mod TaggedEvents
