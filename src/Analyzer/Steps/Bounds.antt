-- ===== src/Analyzer/Steps/Bounds.antt =====
-- Bounds on the step of a range query, and on the number of its points.
use kubefin.Base.{ℕ, ◌+◌, ◌*◌, ◌/◌, ◌%◌, ◌≤◌, ◌<◌, ◌≡◌, arith}
use kubefin.Analyzer.Steps.{get_multiple_of_period, step_of_length}

-- The step is rounded up to the next multiple of the period of 15 seconds.
pub get_multiple_of_period_lem :
    (step : ℕ)
    → (get_multiple_of_period step % 15 ≡ 0)
      × (step ≤ get_multiple_of_period step)
      × (get_multiple_of_period step < step + 15)
unfolding get_multiple_of_period
get_multiple_of_period_lem step = ground arith

-- The step of the details of a cluster is a positive multiple of 15 seconds, and fewer than 11734
-- steps fit into the time that is queried.
pub step_of_length_lem :
    (length : ℕ)
    → let step = step_of_length length in (step % 15 ≡ 0) × (15 ≤ step) × (length < 11734 * step)
unfolding step_of_length
step_of_length_lem length =
    let q = length / 11000 in
    ground (arith, get_multiple_of_period_lem 15, get_multiple_of_period_lem q)

-- Between 165000 and 175999 seconds the step is 15 seconds, and 11000 steps or more fit: with the
-- sample at the start the query has more than 11000 points.
pub step_of_length_over :
    (length : ℕ)
    → 165000 ≤ length
    → length < 176000
    → (step_of_length length ≡ 15) × (11000 * step_of_length length ≤ length)
unfolding step_of_length get_multiple_of_period
step_of_length_over length long short = ground arith
