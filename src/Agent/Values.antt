-- ===== src/Agent/Values.antt =====
-- The names of metrics, labels and billing modes (pkg/values/metrics.go), and of resources.
use kubefin.Base.{String}

abbrev pub cluster_active_metrics_name : String
cluster_active_metrics_name = "kubefin_cluster_active"

abbrev pub node_cpu_core_hourly_cost_metrics_name : String
node_cpu_core_hourly_cost_metrics_name = "kubefin_node_cpu_core_hourly_cost"

abbrev pub node_cpu_hourly_cost_metrics_name : String
node_cpu_hourly_cost_metrics_name = "kubefin_node_cpu_hourly_cost"

abbrev pub node_ramgb_hourly_cost_metrics_name : String
node_ramgb_hourly_cost_metrics_name = "kubefin_node_ram_gb_hourly_cost"

abbrev pub node_gpu_card_hourly_cost_metrics_name : String
node_gpu_card_hourly_cost_metrics_name = "kubefin_node_gpu_card_hourly_cost"

abbrev pub node_resource_hourly_cost_metrics_name : String
node_resource_hourly_cost_metrics_name = "kubefin_node_resource_hourly_cost"

abbrev pub node_ram_hourly_cost_metrics_name : String
node_ram_hourly_cost_metrics_name = "kubefin_node_ram_hourly_cost"

abbrev pub node_total_hourly_cost_metrics_name : String
node_total_hourly_cost_metrics_name = "kubefin_node_total_hourly_cost"

abbrev pub node_resource_total_metrics_name : String
node_resource_total_metrics_name = "kubefin_node_resource_total"

abbrev pub node_resource_system_taken_name : String
node_resource_system_taken_name = "kubefin_node_resoruce_system_taken"

abbrev pub node_resource_available_metrics_name : String
node_resource_available_metrics_name = "kubefin_node_resource_available"

abbrev pub node_resource_usage_metrics_name : String
node_resource_usage_metrics_name = "kubefin_node_resource_usage"

abbrev pub node_resource_requested_name : String
node_resource_requested_name = "kubefin_node_resource_requested"

abbrev pub workload_resource_cost_metrics_name : String
workload_resource_cost_metrics_name = "kubefin_workload_resource_cost"

abbrev pub workload_resource_request_metrics_name : String
workload_resource_request_metrics_name = "kubefin_workload_resource_request"

abbrev pub workload_resource_usage_metrics_name : String
workload_resource_usage_metrics_name = "kubefin_workload_resource_usage"

abbrev pub workload_pod_count_metrics_name : String
workload_pod_count_metrics_name = "kubefin_workload_pod_count"

abbrev pub pod_resource_request_metrics_name : String
pod_resource_request_metrics_name = "kubefin_pod_resource_request"

abbrev pub pod_resource_usage_metrics_name : String
pod_resource_usage_metrics_name = "kubefin_pod_resource_usage"

abbrev pub pod_resource_cost_metrics_name : String
pod_resource_cost_metrics_name = "kubefin_pod_resource_cost"

abbrev pub cluster_name_label_key : String
cluster_name_label_key = "cluster_name"

abbrev pub cluster_id_label_key : String
cluster_id_label_key = "cluster_id"

abbrev pub namespace_label_key : String
namespace_label_key = "namespace"

abbrev pub labels_label_key : String
labels_label_key = "labels"

abbrev pub resource_type_label_key : String
resource_type_label_key = "resource"

abbrev pub billing_mode_label_key : String
billing_mode_label_key = "billing_mode"

abbrev pub node_name_label_key : String
node_name_label_key = "node"

abbrev pub container_name_label_key : String
container_name_label_key = "container"

abbrev pub workload_type_label_key : String
workload_type_label_key = "workload_type"

abbrev pub workload_name_label_key : String
workload_name_label_key = "workload_name"

abbrev pub node_instance_type_label_key : String
node_instance_type_label_key = "instance_type"

abbrev pub node_billing_period_label_key : String
node_billing_period_label_key = "billing_period"

abbrev pub region_label_key : String
region_label_key = "region"

abbrev pub cloud_provider_label_key : String
cloud_provider_label_key = "cloud_provider"

abbrev pub pod_name_label_key : String
pod_name_label_key = "pod"

abbrev pub pod_scheduled_key : String
pod_scheduled_key = "scheduled"

abbrev pub billing_mode_on_demand : String
billing_mode_on_demand = "ondemand"

abbrev pub billing_mode_monthly : String
billing_mode_monthly = "monthly"

abbrev pub billing_mode_yearly : String
billing_mode_yearly = "yearly"

abbrev pub billing_mode_spot : String
billing_mode_spot = "spot"

abbrev pub billing_mode_fallback : String
billing_mode_fallback = "fallback"

abbrev pub resource_cpu : String
resource_cpu = "cpu"

abbrev pub resource_memory : String
resource_memory = "memory"

abbrev pub resource_gpu : String
resource_gpu = "nvidia.com/gpu"

abbrev pub cloud_provider_ack : String
cloud_provider_ack = "ack"

abbrev pub cloud_provider_eks : String
cloud_provider_eks = "eks"

abbrev pub cloud_provider_on_premise : String
cloud_provider_on_premise = "onpremise"

abbrev pub cloud_provider_auto : String
cloud_provider_auto = "auto"
