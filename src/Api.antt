-- ===== src/Api.antt =====
-- The data types of pkg/apis/rio.cattle.io/v1.
pub mod Service
pub mod Router
pub mod Domain
