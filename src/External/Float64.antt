-- ===== src/External/Float64.antt =====
-- Go's `float64` and what the source does with it. The type and its operations are a parameter of
-- the model: no law is assumed but where a theorem names it.
use kubefin.Base.Int.{ℤ, pos, negsuc}
use kubefin.Base.{ℕ, suc, ◌+◌, ◌-◌, ◌*◌, ◌/◌, ◌^◌, String, Bool, Option, none, nat_eqb, leb}

pub record Float64 (F : Type 0) : Type 0 where
  pub add : F → F → F
  pub sub : F → F → F
  pub mul : F → F → F
  pub div : F → F → F
  -- `a <= b`, `a == b`
  pub le : F → F → Bool
  pub eqb : F → F → Bool
  -- a whole number, and the literal m * 10 ^ -k
  pub of_ℕ : ℕ → F
  pub decimal : ℕ → ℕ → F
  -- `strconv.ParseFloat(s, 64)`, `none` on an error
  pub parse : String → Option F

abbrev pub nought : {F : Type 0} ⦃f : Float64 F⦄ → F
nought ⦃f⦄ = f.of_ℕ 0

-- `values.GBInBytes`, `values.CoreInMCore`, `values.HourInSeconds`, `values.MetricsPeriodInSeconds`
abbrev pub gb_in_bytes : {F : Type 0} ⦃f : Float64 F⦄ → F
gb_in_bytes ⦃f⦄ = f.of_ℕ 1073741824

abbrev pub core_in_mcore : {F : Type 0} ⦃f : Float64 F⦄ → F
core_in_mcore ⦃f⦄ = f.of_ℕ 1000

abbrev pub hour_in_seconds : {F : Type 0} ⦃f : Float64 F⦄ → F
hour_in_seconds ⦃f⦄ = f.of_ℕ 3600

abbrev pub metrics_period_in_seconds : {F : Type 0} ⦃f : Float64 F⦄ → F
metrics_period_in_seconds ⦃f⦄ = f.of_ℕ 15

-- `float64(i)` of an `int64`
abbrev pub of_ℤ : {F : Type 0} ⦃f : Float64 F⦄ → ℤ → F
of_ℤ ⦃f⦄ (pos n) = f.of_ℕ n
of_ℤ ⦃f⦄ (negsuc n) = f.sub (f.of_ℕ 0) (f.of_ℕ (suc n))

-- Whole numbers in place of floats, for tests.
instance abbrev pub whole : Float64 ℕ
whole = record {
  add = ◌+◌;
  sub = ◌-◌;
  mul = ◌*◌;
  div = ◌/◌;
  le = leb;
  eqb = nat_eqb;
  of_ℕ = λ n. n;
  decimal = λ m k. m / 10 ^ k;
  parse = λ s. none;
}
