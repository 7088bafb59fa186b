-- ===== src/Engine.antt =====
-- The end-of-day replay and settlement engine, core/eodengine.py.
pub mod Result
pub mod Money
pub mod Order
pub mod Trigger
pub mod Book
pub mod Tier
pub mod Replay
pub mod Inline
pub mod Minutes
pub mod Daily
pub mod Corp
pub mod Prologue
pub mod CloseOut
pub mod Settle
pub mod SettleAccount
