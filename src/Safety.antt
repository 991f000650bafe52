-- ===== src/Safety.antt =====
-- safety/: what may halt an exchange bot or slow it down.
pub mod QSwitch
pub mod CircuitBreaker
pub mod Heartbeat
pub mod RateLimiter
mod Tests
