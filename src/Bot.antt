-- ===== src/Bot.antt =====
-- core/exchange_bot.py: the bot of one exchange, over the models of its parts.
pub mod State
pub mod Regimes
pub mod Quotes
pub mod Tick
pub mod Loop
pub mod Frame
pub mod Admission
pub mod Halted
pub mod Ended
pub mod Quoting
pub mod Uncrossed
pub mod Recovery
pub mod Ingestion
mod Tests
