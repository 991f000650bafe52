-- ===== src/Orders.antt =====
-- core/order_manager.py: the open order grid of one exchange, brought to the desired grid by
-- cancelling and placing only what differs.
pub mod Monad
pub mod Grid
pub mod Manager
pub mod Cache
pub mod Steps
pub mod Near
pub mod Placing
pub mod Coverage
pub mod Idle
pub mod Live
pub mod Sync
mod Tests
