-- ===== src/Api.antt =====
-- apps/api/osaip_api: the audit log, the labels of datasets and the permissions.
pub mod Audit
pub mod Propagation
pub mod Permissions
pub mod Recipes
pub mod Builds
