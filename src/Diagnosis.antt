-- ===== src/Diagnosis.antt =====
-- backend/app/diagnosis: the store of diagnoses and the rate limiter.
pub mod Store
pub mod RateLimiter
pub mod Reuse
pub mod Fingerprint
pub mod Actions
pub mod Prompts
pub mod Agent
pub mod Tool
