-- ===== src/Auth.antt =====
-- Access control of pkg/auth: roles (rbac.go) and attributes (abac.go).
pub mod Rbac
pub mod Abac
