-- ===== src/Api.antt =====
-- api/: the control routes of routes.py with the authorisation of app.py, and the live feed of
-- websocket.py.
pub mod Feed
pub mod Heard
pub mod Routes
pub mod Access
pub mod Pausing
mod Tests
