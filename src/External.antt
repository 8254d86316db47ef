-- ===== src/External.antt =====
-- Code of other repositories that the source calls, as interfaces, and the objects that it reads.
pub mod Quantity
pub mod Float64
pub mod Objects
pub mod Prometheus
