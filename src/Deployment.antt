-- ===== src/Deployment.antt =====
-- internal/skillmanager/deployment_plan.go: the plan of a deployment of skills, and its digest.
pub mod Sources
pub mod Accepted
pub mod Sorting
pub mod Digest
mod Examples
