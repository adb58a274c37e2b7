-- ===== src/Stores.antt =====
-- The in-memory stores of backend/app/stores.py. A method that holds the lock throughout is one
-- function from the old state to the new one; the readings of the clock are arguments.
pub mod Jobs
pub mod Metrics
pub mod Alerts
pub mod Lifecycle
pub mod Policies
pub mod Custom
pub mod World
