-- ===== src/Analyzer/Times.antt =====
-- The times that a request asks for (pkg/analyzer/server/implementation/helper.go). `query` is
-- `ctx.Query`, the empty string for a parameter that is missing; `parse_int` is `strconv.ParseInt` by
-- its base, `none` on an error, and `month` what `GetCurrentMonthFirstLastDay` returns.
pub mod Parameters
use kubefin.Base.{ℕ, String, Bool, ◌||◌, ◌==◌, string_key, Option, none, some, if◌then◌else◌}
use kubefin.Base.Int.{ℤ}

abbrev pub query_start_time_para : String
query_start_time_para = "startTime"

abbrev pub query_end_time_para : String
query_end_time_para = "endTime"

abbrev pub query_step_seconds_para : String
query_step_seconds_para = "stepSeconds"

module _ (parse_int : ℕ → String → Option ℤ) (month : ℤ × ℤ) (query : String → String) where
  unfoldable pub get_start_end_time_from_ctx : Option (ℤ × ℤ)
  get_start_end_time_from_ctx =
      if query query_start_time_para == "" || query query_end_time_para == ""
      then some month
      else elim (parse_int 10 (query query_start_time_para)) [
        | none ↦ none
        | some start_time ↦ elim (parse_int 10 (query query_end_time_para)) [
          | none ↦ none
          | some end_time ↦ some (start_time, end_time)
        ]
      ]

  unfoldable pub get_start_end_steps_time_from_ctx : ℤ → Option (ℤ × ℤ × ℤ)
  get_start_end_steps_time_from_ctx step_seconds_if_none = elim get_start_end_time_from_ctx [
    | none ↦ none
    | some (start_time, end_time) ↦
        if query query_step_seconds_para == ""
        then some (start_time, end_time, step_seconds_if_none)
        else elim (parse_int 0 (query query_step_seconds_para)) [
          | none ↦ none
          | some step_seconds ↦ some (start_time, end_time, step_seconds)
        ]
  ]
