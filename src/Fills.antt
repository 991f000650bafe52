-- ===== src/Fills.antt =====
-- core/fill_simulator.py and core/paper_trader.py: the fills of paper trading.
pub mod Simulator
pub mod Paper
pub mod Stats
