-- ===== src/Tests.antt =====
-- Runs of the model on concrete inputs.
pub mod Data
pub mod StoreRuns
pub mod PolicyRuns
pub mod MoreRuns
mod TrainingRuns
mod AgentRuns
mod RouteRuns
mod DetectorRuns
mod ToolRuns
mod SessionRuns
mod IncidentRuns
