-- ===== src/Backtest.antt =====
-- scripts/backtest.py: the replay of the bot's logic against historical candles.
pub mod Book
pub mod Replay
pub mod Ladder
pub mod Passive
pub mod Idle
mod Tests
