-- ===== src/Stringers.antt =====
-- pkg/riofile/stringers: the string forms of the parts of a Riofile.
pub mod Kv
pub mod Env
pub mod DataMount
pub mod Volume
pub mod ContainerPort
pub mod Permission
