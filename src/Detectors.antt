-- ===== src/Detectors.antt =====
-- The detectors of backend/app/detectors.
pub mod Policy
pub mod Instability
pub mod Stalled
pub mod Zscore
pub mod CrossNode
pub mod Diloco
pub mod Regression
pub mod Plateau
