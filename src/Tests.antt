-- ===== src/Tests.antt =====
-- The theorems at concrete inputs.
mod Fixtures
mod Writes
mod Feed
mod Groups
mod RoundTrips
mod Activity
