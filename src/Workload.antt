-- ===== src/Workload.antt =====
-- modules/service/controllers/service/populate: the workload and the Kubernetes service of a
-- service.
pub mod Params
pub mod Populate
pub mod Order
pub mod Mounts
pub mod Selects
pub mod Targets
pub mod Images
