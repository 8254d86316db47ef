-- ===== src/Analyzer/Tests/Costs.antt =====
-- The theorems about the costs of workloads at small replies.
use kubefin.Base.{ℕ, string_key, nat_key, put, none, some, List, [], ◌∷◌, ◌≡◌, refl, get, done}
use kubefin.Base.Int.{pos}
use kubefin.External.Float64.{whole}
use kubefin.External.Prometheus.{Labels}
use kubefin.Analyzer.Goroutines.{act, step, run, reports, wait}
use kubefin.Analyzer.Details.{
  write_details, write_all, make_details, make_all, insert_by_time, sort_by_time, details_list,
}
use kubefin.Analyzer.Query.{SampleStream, Backend}
use kubefin.Analyzer.Series.{by_time, by_key, by_resource}
use kubefin.Analyzer.Details.Lookup.{cell}
use kubefin.Analyzer.WorkloadCost.Keys.{
  split_slash, generate_pod_namespace_name_key, generate_workload_namespace_name_key,
  parse_workload_namespace_name_type,
}
use kubefin.Analyzer.WorkloadCost.Keys.RoundTrip.{parse-generate_workload_namespace_name_key}
use kubefin.Analyzer.WorkloadCost.Lists.{ClusterWorkloadCost, convert_cluster_workload_cost_to_list}
use kubefin.Analyzer.WorkloadCost.Lists.Ascending.{AreAscending}
use kubefin.Analyzer.WorkloadCost.Pods.{
  pod_workload_cost, query_pod_costs_with_time_range, query_pod_total_costs_with_time_range,
  query_pod_resource_request, query_pod_resource_usage, parse_pod_total_cost,
  parse_pod_resource_request, parse_pod_resource_usage,
}
use kubefin.Analyzer.WorkloadCost.Pods.Merging.{
  cell-pod_workload_cost, query_pod_costs_with_time_range-AreAscending,
}
use kubefin.Analyzer.WorkloadCost.HighLevel.{workload_cost}
use kubefin.Analyzer.WorkloadCost.HighLevel.Merging.{cell-workload_cost}
use kubefin.Analyzer.Series.Samples.{last_value, last_stream, of_resource}

abbrev pub web : Labels
web =
    ("workload_type", "job")
    ∷ ("namespace", "shop")
    ∷ ("workload_name", "web")
    ∷ ("pod", "web-0")
    ∷ ("resource", "cpu")
    ∷ []

-- Two samples, the later one first.
abbrev pub series : List (SampleStream ℕ)
series = record { metric = web; values = (7200, 10800) ∷ (3600, 7200) ∷ [] } ∷ []

abbrev pub none_at_all : List (SampleStream ℕ)
none_at_all = []

parse-generate_workload_namespace_name_key_example :
    parse_workload_namespace_name_type (generate_workload_namespace_name_key web)
    ≡ done ("job", "shop", "web")
unfolding get
parse-generate_workload_namespace_name_key_example =
    parse-generate_workload_namespace_name_key web (refl, (refl, (refl, tt)))
      (refl, (refl, (refl, (refl, tt)))) (refl, (refl, (refl, tt)))

cell-pod_workload_cost_example :
    let key = generate_pod_namespace_name_key in
    cell "pod/shop/web-0" 3600 (
      pod_workload_cost
        (by_key key series [])
        (by_resource key series ([], []))
        (by_resource key none_at_all ([], []))
        (pos 7200))
    ≡ some (record {
      timestamp = 3600;
      pod_count = 1;
      cpu_core_request = 3600;
      cpu_core_usage = 0;
      ram_gib_request = 0;
      ram_gib_usage = 0;
      total_cost = 7200;
    })
unfolding by_time by_key by_resource get put generate_pod_namespace_name_key
cell-pod_workload_cost_example =
    cell-pod_workload_cost "pod/shop/web-0" 3600 (pos 7200) series series none_at_all

-- Steps of two hours, each of 480 periods.
cell-workload_cost_example :
    let key = generate_workload_namespace_name_key in
    cell "job/shop/web" 3600 (
      workload_cost
        (by_key key series [])
        (by_key key series [])
        (by_resource key series ([], []))
        (by_resource key none_at_all ([], []))
        (pos 7200))
    ≡ some (record {
      timestamp = 3600;
      pod_count = 15;
      cpu_core_request = 3600;
      cpu_core_usage = 0;
      ram_gib_request = 0;
      ram_gib_usage = 0;
      total_cost = 7200;
    })
unfolding last_value last_stream of_resource get generate_workload_namespace_name_key
cell-workload_cost_example =
    cell-workload_cost "job/shop/web" 3600 (pos 7200) series series series none_at_all

abbrev pub backend : Backend ℕ
backend = record {
  query_instant = λ promql. none;
  query_instant_range = λ promql. none;
  query_range_with_step = λ promql start end step. some series;
}

abbrev pod_costs : List (ClusterWorkloadCost ℕ)
pod_costs =
    record {
      namespace = "shop";
      workload_name = "web-0";
      workload_type = "pod";
      cost_list =
          record {
            timestamp = 3600;
            pod_count = 1;
            cpu_core_request = 7200;
            cpu_core_usage = 7200;
            ram_gib_request = 0;
            ram_gib_usage = 0;
            total_cost = 7200;
          }
          ∷ record {
            timestamp = 7200;
            pod_count = 1;
            cpu_core_request = 10800;
            cpu_core_usage = 10800;
            ram_gib_request = 0;
            ram_gib_usage = 0;
            total_cost = 10800;
          }
          ∷ [];
    }
    ∷ []

abbrev pub in_order : List ℕ
in_order = 0 ∷ 0 ∷ 0 ∷ 1 ∷ 1 ∷ 1 ∷ 2 ∷ 2 ∷ 2 ∷ 3 ∷ 3 ∷ 3 ∷ 4 ∷ 4 ∷ 4 ∷ 5 ∷ 5 ∷ 5 ∷ 6 ∷ 6 ∷ 6 ∷ []

pod_costs_ran :
    query_pod_costs_with_time_range (λ n. "1") backend "c" (pos 0) (pos 7200) (pos 3600) in_order
    ≡ done (some pod_costs)
unfolding query_pod_costs_with_time_range query_pod_total_costs_with_time_range
    query_pod_resource_request query_pod_resource_usage wait run step act reports by_key by_resource
    by_time pod_workload_cost parse_pod_total_cost parse_pod_resource_request
    parse_pod_resource_usage write_all write_details make_all make_details get put
    convert_cluster_workload_cost_to_list sort_by_time insert_by_time details_list
    parse_workload_namespace_name_type generate_pod_namespace_name_key split_slash
pod_costs_ran = refl

query_pod_costs_with_time_range-AreAscending_example : AreAscending pod_costs
query_pod_costs_with_time_range-AreAscending_example =
    query_pod_costs_with_time_range-AreAscending (λ n. "1") backend "c" (pos 0) (pos 7200)
      (pos 3600) in_order pod_costs pod_costs_ran
