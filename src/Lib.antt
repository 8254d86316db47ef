-- ===== src/Lib.antt =====
-- KubeFin: the cost of Kubernetes clusters.
--
-- The agent (pkg/agent) runs in each cluster. Informers tell it of pods and nodes, the metrics server
-- of usage and a price provider of the prices of nodes; Prometheus scrapes what its collectors export.
-- The analyzer (pkg/analyzer) answers queries over the stored series.
--
-- Modelled are the agent, and the analyzer from the handlers to the requests that it sends:
-- * Agent/NodeMetrics models pkg/agent/metrics/core/node_metrics.go. The state is the record
--   NodeMetricsCollector with the map `nodeResource`; handleNodeAddition, handleNodeDeletion,
--   addPodResourceRequested, deletePodResourceRequested, handlePodAddition, handlePodUpdate and
--   handlePodDeletion are functions of the same names, with an Outcome that is `panic` where Go writes
--   into a nil map. `dispatch` is registerNodeResourceEventHandler. Collect has the exports; World has
--   the changes of the pods and the calls that informers make for them, among them missed deletions, which
--   come as tombstones, and pods that are replaced by others of their name while one of the two is not
--   bound; left out is the replacement of a bound pod by one that is bound already. Handling has what
--   each handler does to the agreement with the pods.
-- * Agent/PodMetrics, Agent/WorkloadMetrics and Agent/ClusterMetrics model the other collectors of
--   pkg/agent/metrics/core: one function per method, its result the list of the exported metrics.
--   WorkloadMetrics/Mapper is the mapper of resources, which stays that of the start: the ticker of the
--   loop that should refresh it is stopped when refreshResourceMapper returns.
-- * Agent/UsageCache models pkg/agent/metrics/cache/usage_cache.go; `tick` is one round of Start.
-- * Agent/Utils models pkg/agent/utils/utils.go, on which the collectors and the cache rest.
-- * Agent/CloudPrice models pkg/agent/cloudprice: Provider the choice of a provider, Ack, Eks and
--   DefaultCloud the three of them, Formula the split of a price, Options the options and errors.
-- * Agent/Values and Agent/Types have the constants of pkg/values and the price record.
-- * Analyzer/Steps models GetClusterDetailsStartEndStepTime and getMultipleOfPeriod of
--   pkg/analyzer/utils/utils.go.
-- * Analyzer/Times models pkg/analyzer/server/implementation/helper.go, the times of a request.
-- * Analyzer/Goroutines models the pattern of all queries, goroutines that assign one `err` and append it
--   to one slice: a schedule is a list of numbers of goroutines; an assignment is one step and an
--   append two, a read of the slice and a store, as nothing locks it.
-- * Analyzer/Query models pkg/analyzer/query: the client and the text of each query (Query/Promql).
-- * Analyzer/Series and Analyzer/Details model the loops that the query functions and the parse functions
--   of pkg/analyzer/server/implementation share: from series to maps, and from maps to maps of details.
-- * Analyzer/WorkloadCost models workload_cost.go of that directory, Analyzer/NamespaceCost
--   namespace_cost.go, Analyzer/ResourceCost resource_cost.go, Analyzer/ClusterMetrics
--   cluster_metrics.go and Analyzer/ClusterCost cluster_cost.go: one function per function of the
--   source, with the records of pkg/analyzer/types/types.go.
-- * Analyzer/Handlers models pkg/analyzer/server/costs_handler and resources_handler, the functions of
--   pkg/analyzer/utils/utils.go that they call, and in Handlers/Routes the table of
--   pkg/analyzer/router/router.go: `serve` is a request's way from its route to the response, over the
--   queries above.
-- * External has what the source takes from Kubernetes, Prometheus and Go: objects with the fields
--   that are read, quantities, floats and metrics. Base has shared helpers, in particular Go's maps
--   as association lists.
--
-- Parameters. `float64` is a type with operations (External/Float64); no law of it is assumed.
-- Quantities are a type with an exact sum and difference where a theorem asks for IsExact. Listers,
-- price services, the metrics server, json.Marshal, strings.Split, selectors and the Lua extraction
-- are functions or replies given to the definitions; an error of one of them is `none`. The provider
-- that a collector calls is a function from nodes to prices. Each operation of the agent is one
-- step. The mutexes of the agent see to that but in handlePodUpdate, which takes off the requests of
-- a pod that finishes without the lock, in the test whether a node is known, and in Collect, which
-- takes the lock anew for each resource of a node. The backend of the analyzer's queries is the
-- record Backend of Analyzer/Query; there `send` is the HTTP exchange, `decode` the JSON decoding
-- and `itoa` prints a number. What is decoded is a list of samples or of series: that the `result`
-- of a reply has no null in it, which the code would dereference, is taken from the API of
-- Prometheus. The conversion of a sample's value to int64 is `to_int64`.
--
-- Bounds. Every loop of the source is over a list or a map, and is structural recursion here, so that
-- there is no fuel. A map is visited in the order of its list. An `int64` that is added up is its 64
-- bits; the times of samples and the clock are natural numbers, the times and steps of a request integers.
-- The handlers take the tenant's client as a function of the tenant (`client_of`), the schedules of the
-- request's joins as a function of their number, and one reading of the clock per request.
--
-- Not modelled: of the analyzer the calendar of the current month and the matching of paths; the
-- generated clients, the start-up of the two commands and the leader election, the Lua interpreter
-- (a copy of Karmada's), HTTP, JSON and logging, Describe and the registration calls, the dashboard
-- and the deployment files.
pub mod Agent
pub mod Analyzer
pub mod Base
pub mod External
