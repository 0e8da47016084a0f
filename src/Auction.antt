-- ===== src/Auction.antt =====
-- The auctions of the SERP (lib-serml/serp/serp-auction): diamond, setter and serplus.
pub mod Types
mod Steps
pub mod Pricing
pub mod Bids
pub mod Calls
pub mod Totals
mod Tests
