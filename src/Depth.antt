-- ===== src/Depth.antt =====
-- quant/depth_engine.py: the sizes of the orders.
pub mod Engine
pub mod Floor
