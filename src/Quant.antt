-- ===== src/Quant.antt =====
-- quant/: from volatility to aggressiveness, spreads and amounts.
pub mod Aggressiveness
pub mod Overlay
pub mod Detector
pub mod Readiness
pub mod Volatility
pub mod Estimates
mod Tests
