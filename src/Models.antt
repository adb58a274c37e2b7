-- ===== src/Models.antt =====
-- The data that the backend exchanges (backend/app/models, backend/app/diagnosis/models.py).
pub mod Metrics
pub mod Alerts
pub mod Policies
pub mod Json
pub mod Diagnoses
