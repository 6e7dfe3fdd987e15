-- ===== src/Value/WholeFloats.antt =====
-- An instance of the floats for the tests: whole numbers that are not negative.
use truth.Base.{ℕ, ◌^◌, ◌+◌, ◌-◌, ◌*◌, ◌/◌, ◌%◌, ltb, leb, ◌==◌}
use truth.Value.{FloatOps}

abbrev pub whole_floats : FloatOps
whole_floats = record {
  Float = ℕ;
  neg = λ a. a;
  sin = λ a. 0;
  cos = λ a. 1;
  sqrt = λ a. a;
  add = λ a b. a + b;
  sub = λ a b. a - b;
  mul = λ a b. a * b;
  div = λ a b. a / b;
  rem = λ a b. a % b;
  eq = λ a b. a == b;
  lt = λ a b. ltb a b;
  le = λ a b. leb a b;
  of_int = λ a. a;
  to_int = λ a. a % 2 ^ 32;
}
