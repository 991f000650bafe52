-- ===== src/Connectors.antt =====
-- exchange/ccxt_connector.py, exchange/ccxt_ws_connector.py and exchange/cpp_connector.py: the
-- connectors that the factory chooses from.
pub mod Monad
pub mod Ccxt
pub mod Retries
pub mod Cancelling
pub mod Lifecycle
pub mod Cpp
pub mod Streams
pub mod Books
pub mod Backoff
mod Tests
