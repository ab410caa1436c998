-- ===== src/Balancer/P2c/Filled.antt =====
-- The P2C balancer keeps what the interface LoadBalancer promises to the client manager.
use code_runner_backend.Prelude.{List}
use code_runner_backend.Balancer.{LoadBalancer}
use code_runner_backend.Balancer.P2c.{Floats, P2cNode, P2cEnv, add, get, remove, done}
use code_runner_backend.Balancer.P2c.Membership.{
  Distinct, has, has-add, has-get, has-remove, has-done, get-has, get_nobody,
}
use code_runner_backend.Balancer.P2c.Names.{
  add-Distinct, get-Distinct, remove-Distinct, done-Distinct,
}

abbrev pub p2c_balancer : Floats → LoadBalancer
p2c_balancer fl = record {
  State = List (P2cNode fl.F);
  Env = P2cEnv;
  add = add fl;
  get = get fl;
  remove = remove fl;
  done = done fl;
  has = has fl;
  IsSound = Distinct;
  add-IsSound = add-Distinct fl;
  get-IsSound = get-Distinct fl;
  remove-IsSound = remove-Distinct fl;
  done-IsSound = done-Distinct fl;
  has-add = has-add fl;
  has-get = has-get fl;
  has-remove = has-remove fl;
  has-done = has-done fl;
  get-has = get-has fl;
  get_nobody = get_nobody fl;
}
