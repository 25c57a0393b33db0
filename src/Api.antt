-- ===== src/Api.antt =====
-- apps/api/src: authentication, validation, the controllers and the exception filter.
pub mod Auth
pub mod ErrorFilter
pub mod Validation
pub mod Controllers
