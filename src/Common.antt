-- ===== src/Common.antt =====
-- services/api/src/common: what the services share beside authorization.
pub mod Audit
pub mod Metrics
