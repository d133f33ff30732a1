-- ===== src/Discovery.antt =====
-- crates/router/src/service_discovery.rs: pods, the tracked set, the worker pools, reconciliation.
pub mod Pods
pub mod Pools
pub mod Events
pub mod Reconcile
pub mod Selection
pub mod Supervisor
pub mod Roles
pub mod Watcher
pub mod Consistency
