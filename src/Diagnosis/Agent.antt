-- ===== src/Diagnosis/Agent.antt =====
-- backend/app/diagnosis/agent.py.
pub mod Results
pub mod Fallback
pub mod Parsing
pub mod Flow
pub mod Recording
pub mod Reply
pub mod Unavailable
pub mod Infinite
pub mod Catalog
