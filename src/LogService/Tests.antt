-- ===== src/LogService/Tests.antt =====
-- Eleven logs through a sender (log_service/log_sender.h).
use dag_executor.Common.Int.{ℤ, pos}
use dag_executor.LogService.Controler.{
  Prometheus, new_controler, produce_all, counted, produce_all-unexposed,
}
use dag_executor.Common.{ℕ, ◌+◌, ◌≡◌, some, List, [], ◌∷◌, arith}
use dag_executor.ThreadPool.{ThreadPool, new_pool}
use dag_executor.ThreadPool.Dispatch.{IsServing}
use dag_executor.LogService.{Save, LocalSender, new_sender_on}
use dag_executor.LogService.Batches.{send_all, Sent, send_all_lem}
use dag_executor.Util.{Text}

abbrev pool : ThreadPool Save
pool = new_pool 1 100

pool-IsServing : IsServing pool
unfolding new_pool
pool-IsServing = omega arith

abbrev logs : List Text
logs =
    (1 ∷ [])
    ∷ (2 ∷ [])
    ∷ (3 ∷ [])
    ∷ (4 ∷ [])
    ∷ (5 ∷ [])
    ∷ (6 ∷ [])
    ∷ (7 ∷ [])
    ∷ (8 ∷ [])
    ∷ (9 ∷ [])
    ∷ (10 ∷ [])
    ∷ (11 ∷ [])
    ∷ []

send_all_lem_example :
    (t : LocalSender) × (send_all (new_sender_on pool) logs ≡ some t)
    × Sent [] (new_sender_on pool) logs t
send_all_lem_example = send_all_lem pool logs pool-IsServing

-- A registry that keeps the increments, and an exposer that counts what is registered with it.
abbrev prometheus : Prometheus (List (Text × ℤ)) ℕ Text Text
prometheus = record {
  new_registry = [];
  build_counter = λ name r. (name, r);
  add_counter = λ family r. (family, r);
  increment = λ name z r. (name, z) ∷ r;
  register_collectable = λ r n. n + 1;
}

abbrev increments : List (Text × ℤ)
increments = (1 ∷ [], pos 5) ∷ (2 ∷ [], pos 7) ∷ []

produce_all-unexposed_example :
    ((produce_all prometheus (new_controler prometheus 0) increments).exposer ≡ 0)
    × ((produce_all prometheus (new_controler prometheus 0) increments).registry
        ≡ counted prometheus [] increments)
produce_all-unexposed_example =
    produce_all-unexposed prometheus (new_controler prometheus 0) increments
