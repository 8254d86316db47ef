-- ===== src/Analyzer/Steps.antt =====
-- The times and steps of range queries (pkg/analyzer/utils/utils.go and
-- pkg/analyzer/server/implementation/helper.go). Times are seconds; the quotient of a negative length
-- by 11000 is not positive, as that of 0 is not, so that a length is a natural number.
pub mod Bounds
use kubefin.Base.{
  ℕ, ◌+◌, ◌-◌, ◌*◌, ◌/◌, ◌%◌, String, Bool, not, ◌||◌, ◌==◌, string_key, nat_eqb, leb, Option, none,
  some, List, [], ◌∷◌, Dict, get, or_else, if◌then◌else◌, Outcome, done, panic,
}

-- `int64(values.MetricsPeriodInSeconds)`
abbrev pub metrics_period_in_seconds : ℕ
metrics_period_in_seconds = 15

unfoldable pub get_multiple_of_period : ℕ → ℕ
get_multiple_of_period step_seconds =
    if not (nat_eqb (step_seconds % metrics_period_in_seconds) 0)
    then step_seconds / metrics_period_in_seconds * metrics_period_in_seconds
      + metrics_period_in_seconds
    else step_seconds

-- `stepSeconds` from `(end - start) / 11000` on.
unfoldable pub step_of_length : ℕ → ℕ
step_of_length length_seconds =
    let step_seconds = length_seconds / 11000 in
    get_multiple_of_period (if leb step_seconds 0 then metrics_period_in_seconds else step_seconds)

-- `cluster_state` is the reply of the query, the times of the samples of each series; `now` is
-- `time.Now().Unix()`. Start, end and step, or an error; a series without samples panics.
unfoldable pub get_cluster_details_start_end_step_time :
    Option (List (List ℕ)) → ℕ → Outcome (Option (ℕ × ℕ × ℕ))
get_cluster_details_start_end_step_time none now = done none
get_cluster_details_start_end_step_time (some []) now = done none
get_cluster_details_start_end_step_time (some ([] ∷ series)) now = panic
get_cluster_details_start_end_step_time (some ((start ∷ times) ∷ series)) now =
    done (some (start, now, step_of_length (now - start)))
