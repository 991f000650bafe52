-- ===== src/Regime.antt =====
-- quant/regime_detector.py and core/regime_master.py: the market regime that all bots see.
pub mod Observation
pub mod Parameters
pub mod Master
pub mod Encoding
pub mod Reconcile
pub mod Training
mod Tests
