-- ===== src/Networking.antt =====
-- The networking core: the status of connection requests, the flow state of a user, its manager,
-- the tables of the database, and the handshake that moves both,
-- of one match and of several.
pub mod Status
pub mod Fault
pub mod Flow
pub mod Stored
pub mod Table
pub mod Flows
pub mod Manager
pub mod Requests
pub mod Matches
pub mod Handshake
pub mod Multi
pub mod Queries
mod Tests
