-- ===== src/Mesh.antt =====
-- apps/mesh/osaip_mesh: one model call through the mesh.
pub mod Models
pub mod Cost
pub mod Quotas
pub mod Request
pub mod Cache
pub mod Ledger
pub mod Stages
pub mod Pipeline
