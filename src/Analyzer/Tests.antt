-- ===== src/Analyzer/Tests.antt =====
-- The theorems about the analyzer at small replies.
mod Costs
mod Metrics
mod Resources
mod Clusters
mod Handlers
use kubefin.Base.{
  ℕ, ◌*◌, ◌≤◌, ◌%◌, ◌<◌, String, none, some, List, [], ◌∷◌, ◌≡◌, ◌⊎◌, ◌↔◌, Option, if◌then◌else◌,
  ◌==◌, string_key, refl, arith,
}
use kubefin.Analyzer.Steps.{get_multiple_of_period, step_of_length}
use kubefin.Analyzer.Steps.Bounds.{
  get_multiple_of_period_lem, step_of_length_lem, step_of_length_over,
}
use kubefin.Base.Int.{ℤ, pos}
use kubefin.Analyzer.Times.{query_step_seconds_para, get_start_end_steps_time_from_ctx}
use kubefin.Analyzer.Times.Parameters.{HasTimes, IsBad, get_start_end_steps_time_from_ctx-none_iff}
use kubefin.Analyzer.Goroutines.{Goroutine, act, step, run, unset}
use kubefin.Analyzer.WorkloadCost.{
  Reply, started, aggregate_by_all, query_workload_costs_with_time_range,
}
use kubefin.Analyzer.WorkloadCost.Schedules.{
  query_workload_costs-succeed, query_workload_costs-fail, query_workload_costs-lost,
}

-- Sixty days.
step_of_length_lem_example :
    (step_of_length 5184000 % 15 ≡ 0)
    × (15 ≤ step_of_length 5184000)
    × (5184000 < 11734 * step_of_length 5184000)
step_of_length_lem_example = step_of_length_lem 5184000

-- Two days.
step_of_length_over_example :
    (step_of_length 172800 ≡ 15) × (11000 * step_of_length 172800 ≤ 172800)
step_of_length_over_example = step_of_length_over 172800 (omega arith) (omega arith)

abbrev costs : ℕ → Reply String ℕ
costs v = Reply.returned (v ∷ [])

abbrev failure : String → Reply String ℕ
failure e = Reply.failed e

both_failed :
    (run
      (1 ∷ 0 ∷ 1 ∷ 1 ∷ 0 ∷ 0 ∷ [])
      (started aggregate_by_all (failure "e") (failure "f"))
      unset).0
    ≡ Goroutine.finished ∷ Goroutine.finished ∷ []
unfolding run step act started
both_failed = refl

query_workload_costs-fail_example :
    query_workload_costs_with_time_range
      (1 ∷ 0 ∷ 1 ∷ 1 ∷ 0 ∷ 0 ∷ [])
      aggregate_by_all
      (failure "e")
      (failure "f")
    ≡ none
query_workload_costs-fail_example =
    query_workload_costs-fail (1 ∷ 0 ∷ 1 ∷ 1 ∷ 0 ∷ 0 ∷ []) "e" "f" (Goroutine.finished ∷ [])
      both_failed

query_workload_costs-lost_example :
    (schedule : List ℕ) × ((run schedule
        (started aggregate_by_all (failure "timeout") (costs 4))
        unset).0
      ≡ Goroutine.finished ∷ Goroutine.finished ∷ [])
    × (query_workload_costs_with_time_range schedule aggregate_by_all (failure "timeout") (costs 4)
        ≡ some (4 ∷ []))
query_workload_costs-lost_example = query_workload_costs-lost "timeout" (4 ∷ [])

-- The text "60" can be read.
abbrev parse_int : ℕ → String → Option ℤ
parse_int base s = if s == "60" then some (pos 60) else none

-- A start that is no number, no end, and a step that can be read.
abbrev asked : String → String
asked para = if para == "startTime" then "x" else if para == "stepSeconds" then "60" else ""

get_start_end_steps_time_from_ctx-none_iff_example :
    (get_start_end_steps_time_from_ctx parse_int (pos 1, pos 2) asked (pos 3600) ≡ none) ↔ (
      (HasTimes parse_int (pos 1, pos 2) asked
        × ((◌≡◌ {A = Option ℤ} none none) ⊎ (◌≡◌ {A = Option ℤ} none none)))
      ⊎ IsBad parse_int (pos 1, pos 2) asked 0 query_step_seconds_para)
get_start_end_steps_time_from_ctx-none_iff_example =
    get_start_end_steps_time_from_ctx-none_iff parse_int (pos 1, pos 2) asked (pos 3600)
