-- ===== src/Controller.antt =====
-- internal/controller: the reconcilers, and what they share.
pub mod Gate
pub mod Trigger
pub mod Summary
pub mod Status
pub mod Prune
pub mod Device
pub mod Dns
pub mod Reconcile
pub mod Rbac
pub mod Watch
