-- ===== src/Packet.antt =====
-- internal/packetissuance: the packet issuance contract of tablets, Desk and site.
pub mod Model
pub mod Validate
pub mod Rows
pub mod Numbers
pub mod Persons
pub mod Moves
pub mod Apply
pub mod Fields
pub mod Reverse
mod Tests
pub mod MessageTests
pub mod Json
pub mod Canonical
pub mod Operation
pub mod ParseCommand
pub mod ParseOperation
pub mod FeedChange
pub mod ParseFeed
pub mod Reserves
pub mod Bootstrap
