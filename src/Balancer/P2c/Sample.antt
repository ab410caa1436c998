-- ===== src/Balancer/P2c/Sample.antt =====
-- Integers in place of floating point, for runs of the balancer.
use code_runner_backend.Prelude.Int.{ℤ, pos, ltb_ℤ, ◌+ℤ◌, ◌-ℤ◌}
use code_runner_backend.Balancer.P2c.{Floats}

-- Addition and subtraction are those of integers; the rest is as simple as can be.
abbrev pub integers : Floats
integers = record {
  F = ℤ;
  of_int = λ k. k;
  to_int = λ k. k;
  plus = ◌+ℤ◌;
  minus = ◌-ℤ◌;
  times = λ a b. b;
  over = λ a b. a;
  sqrt = λ a. a;
  exp = λ a. pos 0;
  below = ltb_ℤ;
}
