-- ===== src/Spread.antt =====
-- quant/spread_engine.py: the spreads of the levels and their prices.
pub mod Engine
pub mod Bounds
pub mod Prices
