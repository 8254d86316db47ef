-- ===== src/Analyzer/ClusterMetrics.antt =====
-- The metrics of clusters (pkg/analyzer/server/implementation/cluster_metrics.go,
-- pkg/analyzer/types/types.go): the types, and the arithmetic that the queries of all clusters and of
-- one cluster share.
pub mod Ranges
pub mod Properties
pub mod AllClusters
pub mod OneCluster
pub mod Agreement
use kubefin.Base.{ℕ, ◌+◌, ◌%◌, ◌^◌, String, ◌==◌, string_key, List, [], ◌∷◌, Dict, if◌then◌else◌}
use kubefin.External.Float64.{Float64, nought}
use kubefin.Agent.Values

pub record ClusterBasicProperty (F : Type 0) : Type 0 where
  pub cluster_name : String
  pub cluster_id : String
  pub cloud_provider : String
  pub cluster_region : String
  pub last_active_time : ℕ
  pub cluster_connection_sate : String
  pub cluster_active_time : F
  pub connection_time : ℕ

-- The counts are `int64`, as their 64 bits.
pub record ClusterResourcesSummary (F : Type 0) : Type 0 where
  pub basic_property : ClusterBasicProperty F
  pub node_numbers_current : ℕ
  pub on_demand_billing_node_numbers_current : ℕ
  pub period_billing_node_numbers_current : ℕ
  pub spot_billing_node_numbers_current : ℕ
  pub fallback_billing_node_numbers_current : ℕ
  pub pod_total_current : ℕ
  pub pod_scheduled_current : ℕ
  pub pod_unscheduled_current : ℕ
  pub cpu_core_total : F
  pub cpu_core_system_taken : F
  pub cpu_core_available : F
  pub cpu_core_request : F
  pub cpu_core_usage : F
  pub ram_gib_total : F
  pub ram_gib_system_taken : F
  pub ram_gib_available : F
  pub ram_gib_request : F
  pub ram_gib_usage : F

-- `a + b` of `int64`
abbrev pub add_int64 : ℕ → ℕ → ℕ
add_int64 a b = (a + b) % 2 ^ 64

-- The numbers of nodes: all, on demand and spot, with those of the billing modes added.
unfoldable pub count_nodes : Dict String ℕ → ℕ × ℕ × ℕ → ℕ × ℕ × ℕ
count_nodes [] counts = counts
count_nodes ((billing_mode, num) ∷ v) (total, on_demand, spot) = count_nodes v (
  add_int64 total num,
  if billing_mode == Values.billing_mode_on_demand then add_int64 on_demand num else on_demand,
  if billing_mode == Values.billing_mode_on_demand
      then spot
      else if billing_mode == Values.billing_mode_spot
      then add_int64 spot num
      else spot,
)

-- The numbers of pods: all, scheduled and not scheduled.
unfoldable pub count_pods : Dict String ℕ → ℕ × ℕ × ℕ → ℕ × ℕ × ℕ
count_pods [] counts = counts
count_pods ((scheduled, num) ∷ v) (total, on_node, unscheduled) = count_pods v (
  add_int64 total num,
  if scheduled == "true" then add_int64 on_node num else on_node,
  if scheduled == "true"
      then unscheduled
      else if scheduled == "false"
      then add_int64 unscheduled num
      else unscheduled,
)

module _ {F : Type 0} ⦃float : Float64 F⦄ where
  open float use {add}

  -- The CPU and the memory, with those of the kinds of resources added.
  unfoldable pub sum_resources : Dict String F → F × F → F × F
  sum_resources [] sums = sums
  sum_resources ((resource_type, num) ∷ v) (cpu, ram) = sum_resources v (
    if resource_type == "cpu" then add cpu num else cpu,
    if resource_type == "cpu" then ram else if resource_type == "memory" then add ram num else ram,
  )

  abbrev pub new_property : ClusterBasicProperty F
  new_property = record {
    cluster_name = "";
    cluster_id = "";
    cloud_provider = "";
    cluster_region = "";
    last_active_time = 0;
    cluster_connection_sate = "";
    cluster_active_time = nought;
    connection_time = 0;
  }

  -- `&types.ClusterResourcesSummary{}`
  abbrev pub new_summary : ClusterResourcesSummary F
  new_summary = record {
    basic_property = new_property;
    node_numbers_current = 0;
    on_demand_billing_node_numbers_current = 0;
    period_billing_node_numbers_current = 0;
    spot_billing_node_numbers_current = 0;
    fallback_billing_node_numbers_current = 0;
    pod_total_current = 0;
    pod_scheduled_current = 0;
    pod_unscheduled_current = 0;
    cpu_core_total = nought;
    cpu_core_system_taken = nought;
    cpu_core_available = nought;
    cpu_core_request = nought;
    cpu_core_usage = nought;
    ram_gib_total = nought;
    ram_gib_system_taken = nought;
    ram_gib_available = nought;
    ram_gib_request = nought;
    ram_gib_usage = nought;
  }
