-- ===== src/Desired.antt =====
-- internal/desired: the objects that the operator wants, computed from what it lists.
pub mod Grouping
pub mod DeviceBased
pub mod IngressBased
pub mod LoadBalancerBased
