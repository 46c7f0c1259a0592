-- ===== src/Service/SiteFeed.antt =====
-- The application of the site feed: internal/service/packet_issuance_feed.go.
pub mod Rows
pub mod Plans
pub mod Resolution
pub mod Page
pub mod Once
pub mod Review
pub mod Unchanged
