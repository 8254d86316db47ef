-- ===== src/External/Quantity.antt =====
-- `resource.Quantity` of k8s.io/apimachinery: exact decimal numbers with a zero value.
use kubefin.Base.{◌≡◌}
use kubefin.Base.Int.{ℤ, pos, ◌+ℤ◌, ◌-ℤ◌, +ℤ_comm, +ℤ_assoc, +ℤ_cancel, int_laws}

pub record Quantity (Q : Type 0) : Type 0 where
  pub zero : Q
  pub add : Q → Q → Q
  pub sub : Q → Q → Q

-- Sums of quantities are exact: the type falls back to decimals of any precision.
pub record IsExact (Q : Type 0) ⦃q : Quantity Q⦄ : Type 0 where
  pub add_comm : (a b : Q) → q.add a b ≡ q.add b a
  pub add_assoc : (a b c : Q) → q.add (q.add a b) c ≡ q.add a (q.add b c)
  pub add_zero : (a : Q) → q.add a q.zero ≡ a
  pub sub_add : (a b : Q) → q.sub (q.add a b) b ≡ a

-- Whole units have these laws.
instance abbrev pub units : Quantity ℤ
units = record { zero = pos 0; add = ◌+ℤ◌; sub = ◌-ℤ◌ }

pub units-IsExact : IsExact ℤ
units-IsExact = record {
  add_comm = +ℤ_comm;
  add_assoc = +ℤ_assoc;
  add_zero = λ a. omega int_laws;
  sub_add = +ℤ_cancel;
}

-- Reading a quantity as a float: `AsApproximateFloat64()`, `float64(MilliValue())`,
-- `float64(Value())`.
pub record Readings (Q F : Type 0) : Type 0 where
  pub approximate : Q → F
  pub milli_value : Q → F
  pub value : Q → F
