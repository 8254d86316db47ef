-- ===== src/Agent.antt =====
-- `pkg/agent`: the agent that runs in a cluster and exports its metrics.
pub mod Values
pub mod Types
pub mod Utils
pub mod UsageCache
pub mod CloudPrice
pub mod NodeMetrics
pub mod PodMetrics
pub mod ClusterMetrics
pub mod WorkloadMetrics
