-- ===== src/Analyzer/Query/Promql.antt =====
-- The queries of pkg/analyzer/query/promql.go. A template with `%s` and `%d` is a function of what
-- `fmt.Sprintf` puts there; `itoa` prints a number.
mod Clusters
mod Nodes
mod Workloads
unfoldable pub use Clusters.*
unfoldable pub use Nodes.*
unfoldable pub use Workloads.*
