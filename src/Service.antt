-- ===== src/Service.antt =====
-- internal/service: the application services of the desk.
pub mod ThreeWay
pub mod Merge
pub mod Decision
mod Tests
mod ReceiveTests
mod SiteFeedTests
mod SyncRetryTests
pub mod Categories
pub mod Clubs
pub mod Receive
pub mod SiteFeed
pub mod SyncRetry
