-- ===== src/Security.antt =====
-- The folder src/security: roles, permissions, tenants and bearer authentication.
pub mod Roles
pub mod Rbac
pub mod Tenant
pub mod Auth
mod Tests
