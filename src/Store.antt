-- ===== src/Store.antt =====
-- internal/store: the tables of the panel's database and the queries on servers, devices and usage.
pub mod Tables
pub mod Servers
pub mod Peers
pub mod Traffic
pub mod Histories
pub mod Users
pub mod Sessions
pub mod ApiKeys
pub mod Webhooks
pub mod Nodes
pub mod Events
pub mod Devices
mod Tests
