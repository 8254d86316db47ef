-- ===== src/Agent/WorkloadMetrics/Mapper.antt =====
-- The mapper of resources of pkg/agent/metrics/core/workload_metrics.go, through which the targets of
-- custom workloads are found. The reply of the discovery client is a parameter, `none` on an error, as
-- are schema.ParseGroupVersion, restmapper.NewDiscoveryRESTMapper and the mapper's RESTMapping. The loop
-- of refreshResourceMapper has no round: its ticker is stopped when the function returns.
use kubefin.Base.{String, Option, none, some}

module _ {M R : Type 0} (parse_group_version : String → Option (String × String))
    (rest_mapping : M → String → String → String → Option R) where
  -- The mapping takes the group, the kind and the version.
  unfoldable pub parse_custom_target_to_gvr : M → String → String → Option R
  parse_custom_target_to_gvr resource_mapper api_version kind =
      elim (parse_group_version api_version) [
        | none ↦ none
        | some (group, version) ↦ rest_mapping resource_mapper group kind version
      ]

module _ {G M : Type 0} (new_discovery_rest_mapper : G → M) where
  unfoldable pub get_cluster_resource_mapper : Option G → Option M
  get_cluster_resource_mapper none = none
  get_cluster_resource_mapper (some group_resources) =
      some (new_discovery_rest_mapper group_resources)

  -- The mapper that the agent starts with and keeps: the deferred `ticker.Stop()` runs when the function
  -- returns, and the loop, in its goroutine, waits for a tick that does not come. On an error the
  -- agent does not start.
  unfoldable pub refresh_resource_mapper : Option G → Option M
  refresh_resource_mapper reply = elim (get_cluster_resource_mapper reply) [
    | none ↦ none
    | some resource_mapper ↦ some resource_mapper
  ]
