-- ===== src/Analyzer/WorkloadCost/HighLevel/Merging.antt =====
-- What the map of the costs of workloads holds for each workload and time.
use kubefin.Base.{
  ℕ, String, ◌||◌, Option, none, some, List, [], ◌≡◌, or_else, is_some, if◌then◌else◌, arith,
}
use kubefin.Base.Int.{ℤ}
use kubefin.External.Float64.{Float64, of_ℤ, nought, hour_in_seconds, metrics_period_in_seconds}
use kubefin.Analyzer.Query.{SampleStream}
use kubefin.Analyzer.Series.{by_key, by_resource}
use kubefin.Analyzer.Series.Lookup.{AreMaps-by_key}
use kubefin.Analyzer.Series.Samples.{value_at, of_resource, cell-by_key, by_resource-of_resource}
use kubefin.Analyzer.Details.Lookup.{cell, AreMaps, cell-write_all, cell-make_all}
use kubefin.Analyzer.WorkloadCost.Keys.{generate_workload_namespace_name_key}
use kubefin.Analyzer.WorkloadCost.Lists.{ClusterWorkloadCostDetail}
use kubefin.Analyzer.WorkloadCost.Pods.{Rows}
use kubefin.Analyzer.WorkloadCost.HighLevel.{
  parse_high_level_workload_total_cost, parse_high_level_workload_pod_count,
  parse_high_level_workload_resource_request, parse_high_level_workload_resource_usage,
  workload_cost,
}

module _ {F : Type 0} ⦃float : Float64 F⦄ where
  -- A value over a step of so many periods, zero without one.
  abbrev pub over : F → ℤ → Option F → F
  over period step_seconds none = nought
  over period step_seconds (some v) = float.div v (float.div (of_ℤ step_seconds) period)

  -- The detail of one workload and time, from what the six maps hold for them: none if none holds a value.
  abbrev pub workload_detail :
      ℤ
      → ℕ
      → Option F
      → Option F
      → Option F
      → Option F
      → Option F
      → Option F
      → Option (ClusterWorkloadCostDetail F)
  workload_detail step_seconds t total pods cpu_request ram_request cpu_usage ram_usage =
      if is_some total
        || is_some pods
        || is_some cpu_request
        || is_some ram_request
        || is_some cpu_usage
        || is_some ram_usage
      then some (record {
        timestamp = t;
        pod_count = over metrics_period_in_seconds step_seconds pods;
        cpu_core_request = over hour_in_seconds step_seconds cpu_request;
        cpu_core_usage = over hour_in_seconds step_seconds cpu_usage;
        ram_gib_request = over hour_in_seconds step_seconds ram_request;
        ram_gib_usage = over hour_in_seconds step_seconds ram_usage;
        total_cost = or_else nought total;
      })
      else none

  cell-workload_cost_of :
      (k : String) (t : ℕ) (step_seconds : ℤ) (total pods : Rows F)
      (request usage : Rows F × Rows F)
      → AreMaps total
      → AreMaps pods
      → AreMaps request.0 × AreMaps request.1
      → AreMaps usage.0 × AreMaps usage.1
      → cell k t (workload_cost total pods request usage step_seconds)
        ≡ workload_detail step_seconds t
            (cell k t total)
            (cell k t pods)
            (cell k t request.0)
            (cell k t request.1)
            (cell k t usage.0)
            (cell k t usage.1)
  unfolding workload_cost parse_high_level_workload_total_cost parse_high_level_workload_pod_count
      parse_high_level_workload_resource_request parse_high_level_workload_resource_usage
  cell-workload_cost_of k t step_seconds total pods request usage ht hp hr hu =
      rw
        (
          cell-write_all _ _ k t usage.1 _ hu.1,
          cell-write_all _ _ k t usage.0 _ hu.0,
          cell-write_all _ _ k t request.1 _ hr.1,
          cell-write_all _ _ k t request.0 _ hr.0,
          cell-write_all _ _ k t pods _ hp,
          cell-make_all _ k t total ht,
        )
        (ground arith)

  -- For each workload and time the map has one detail, if one of the six series has a value there: the
  -- total cost as it is, requests and usages divided by the hours of a step, the pods by its periods of
  -- sampling, and zero for what has no value. The values are the last ones at the time in the last
  -- series with the workload's key, for requests and usages among those of CPU or of memory.
  pub cell-workload_cost :
      (k : String) (t : ℕ) (step_seconds : ℤ) (total pods request usage : List (SampleStream F))
      → let key = generate_workload_namespace_name_key in
        cell k t (
          workload_cost
            (by_key key total [])
            (by_key key pods [])
            (by_resource key request ([], []))
            (by_resource key usage ([], []))
            step_seconds)
        ≡ workload_detail step_seconds t
            (value_at key k t total)
            (value_at key k t pods)
            (value_at key k t (of_resource "cpu" request))
            (value_at key k t (of_resource "memory" request))
            (value_at key k t (of_resource "cpu" usage))
            (value_at key k t (of_resource "memory" usage))
  cell-workload_cost k t step_seconds total pods request usage =
      let key = generate_workload_namespace_name_key in
      let maps : (ret : List (SampleStream F)) → AreMaps (by_key key ret []) =
        λ ret. AreMaps-by_key key ret [] tt in
      rw
        (
          by_resource-of_resource key request [] [],
          by_resource-of_resource key usage [] [],
          ← cell-by_key key k t total,
          ← cell-by_key key k t pods,
          ← cell-by_key key k t (of_resource "cpu" request),
          ← cell-by_key key k t (of_resource "memory" request),
          ← cell-by_key key k t (of_resource "cpu" usage),
          ← cell-by_key key k t (of_resource "memory" usage),
        )
        (cell-workload_cost_of k t step_seconds _ _ _ _ (maps total) (maps pods)
          (maps (of_resource "cpu" request), maps (of_resource "memory" request))
          (maps (of_resource "cpu" usage), maps (of_resource "memory" usage)))
