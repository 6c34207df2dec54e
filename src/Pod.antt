-- ===== src/Pod.antt =====
-- modules/service/controllers/service/populate/pod: the pod template of a service.
pub mod Libraries
pub mod Env
pub mod Volumes
pub mod Container
pub mod Spec
pub mod Order
pub mod Sorted
pub mod Placed
pub mod Names
pub mod Mounts
pub mod Claims
