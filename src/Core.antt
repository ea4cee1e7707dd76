-- ===== src/Core.antt =====
-- django_app/apps/core: model mixins, permissions, the exception handler and the database router.
pub mod Models
pub mod Permissions
