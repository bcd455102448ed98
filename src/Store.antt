-- ===== src/Store.antt =====
-- store/store.go: the interface of the script stores, and the choice of a backend.
pub mod Interface
pub mod Maps
pub mod Dev
pub mod File
pub mod Loading
pub mod Etcd
pub mod ByName
pub mod Watching
