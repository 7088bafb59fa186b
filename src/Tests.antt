-- ===== src/Tests.antt =====
-- The theorems at concrete inputs.
mod TradingDay
mod Requests
mod Desk
mod Schedules
mod WholeDay
mod Markets
