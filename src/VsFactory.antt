-- ===== src/VsFactory.antt =====
-- modules/gloo/pkg/vsfactory: the virtual services that route traffic to services and routers.
pub mod Gloo
pub mod Router
pub mod Target
pub mod Build
pub mod Tls
pub mod Factory
