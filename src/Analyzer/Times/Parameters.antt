-- ===== src/Analyzer/Times/Parameters.antt =====
-- Which parameters of a request can make it fail.
use kubefin.Base.{ℕ, String, false, ◌==◌, string_key, Option, none, ◌≡◌, ◌⊎◌, ◌↔◌, arith}
use kubefin.Base.Int.{ℤ}
use kubefin.Analyzer.Times.{
  query_start_time_para, query_end_time_para, query_step_seconds_para, get_start_end_time_from_ctx,
  get_start_end_steps_time_from_ctx,
}

module _ (parse_int : ℕ → String → Option ℤ) (month : ℤ × ℤ) (query : String → String) where
  -- A parameter is present and is not a number.
  abbrev pub IsBad : ℕ → String → Type 0
  IsBad base para = ((query para == "") ≡ false) × (parse_int base (query para) ≡ none)

  -- Both times are present.
  abbrev pub HasTimes : Type 0
  HasTimes =
      ((query query_start_time_para == "") ≡ false) × ((query query_end_time_para == "") ≡ false)

  -- A request fails exactly when both times are given and one of them is not a number, or the step is
  -- given and is not a number.
  pub get_start_end_steps_time_from_ctx-none_iff :
      (step_seconds_if_none : ℤ)
      → (get_start_end_steps_time_from_ctx parse_int month query step_seconds_if_none ≡ none) ↔ (
          (HasTimes
            × ((parse_int 10 (query query_start_time_para) ≡ none)
                ⊎ (parse_int 10 (query query_end_time_para) ≡ none)))
          ⊎ IsBad 0 query_step_seconds_para)
  unfolding get_start_end_steps_time_from_ctx get_start_end_time_from_ctx
  get_start_end_steps_time_from_ctx-none_iff step_seconds_if_none =
      (λ h. ground arith, λ h. ground arith)
