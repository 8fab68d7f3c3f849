-- ===== src/MicroService/Remote/Outcome.antt =====
-- The two ways in which a call of a service ends (micro_service/gen-cpp/AddService.cpp).
use dag_executor.Common.{List}
use dag_executor.Wire.Result.{Result, ok, err, unknown, application}
use dag_executor.MicroService.Rpc.{Handled}

-- What the caller of a method sees when the handler has come to this.
abbrev pub outcome {ℓ κ} : {B : Type ℓ} {R : Type κ} → Handled R → List B → Result (R × List B)
outcome (Handled.returned r) rest = ok (r, rest)
outcome (Handled.thrown what) rest = err (application unknown what)
