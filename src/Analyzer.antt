-- ===== src/Analyzer.antt =====
-- pkg/analyzer: queries over the stored series.
pub mod Goroutines
pub mod Query
pub mod Series
pub mod Details
pub mod Steps
pub mod Times
pub mod WorkloadCost
pub mod NamespaceCost
pub mod ResourceCost
pub mod ClusterMetrics
pub mod ClusterCost
pub mod Handlers
mod Tests
