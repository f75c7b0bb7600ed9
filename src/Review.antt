-- ===== src/Review.antt =====
-- persistence/review_store.py: what the review API reads, page by page. No method writes.
pub mod Cursor
pub mod RoundTrip
pub mod Page
pub mod Walk
pub mod Views
pub mod Filters
pub mod Payloads
pub mod Overview
pub mod Store
pub mod Distinct
pub mod Listings
pub mod Credit
pub mod Routes
pub mod Params
