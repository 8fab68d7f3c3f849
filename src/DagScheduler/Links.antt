-- ===== src/DagScheduler/Links.antt =====
-- `Task::set_precede` (dag_scheduler/task.cpp): what a graph built by it looks like.
use dag_executor.Common.{
  ℕ, ◌≡◌, refl, List, [], ◌∷◌, arith, length, length-append, count, count-append,
}
use dag_executor.Common.Int.{ℤ, pos, ◌+ℤ◌}
use dag_executor.DagScheduler.{Tasks, new_task, set_precede, set_precedes}

-- The two lists of a link agree, and `condition_` is what the memory of the task held at its
-- construction (`memory`) plus the number of tasks that it waits for.
pub record IsLinked (memory : ℕ → ℤ) (h : Tasks) : Type 0 where
  pub mirrored : (a b : ℕ) → count b (h a).successors ≡ count a (h b).precedes
  pub counted : (b : ℕ) → (h b).condition ≡ memory b +ℤ pos (length (h b).precedes)

set_precede-IsLinked :
    (memory : ℕ → ℤ) (h : Tasks) (this pre_task : ℕ)
    → IsLinked memory h
    → IsLinked memory (set_precede h this pre_task)
unfolding set_precede ◌+ℤ◌
set_precede-IsLinked memory h this pre_task v = record {
  mirrored = λ a b. ground (
    arith,
    v.mirrored a b,
    count-append b (h a).successors (this ∷ []),
    count-append a (h b).precedes (pre_task ∷ []),
  );
  counted = λ b. ground (arith, v.counted b, length-append (h b).precedes (pre_task ∷ []));
}

set_precedes-IsLinked :
    (memory : ℕ → ℤ) (h : Tasks) (this : ℕ) (pre_tasks : List ℕ)
    → IsLinked memory h
    → IsLinked memory (set_precedes h this pre_tasks)
unfolding set_precedes
set_precedes-IsLinked memory h this [] v = v
set_precedes-IsLinked memory h this (p ∷ pre_tasks) v =
    set_precedes-IsLinked memory (set_precede h this p) this pre_tasks
      (set_precede-IsLinked memory h this p v)

-- A sequence of calls of `set_precede`, each with a task and the tasks that it is to wait for.
pub link_all : Tasks → List (ℕ × List ℕ) → Tasks
link_all h [] = h
link_all h ((this, pre_tasks) ∷ calls) = link_all (set_precedes h this pre_tasks) calls

link_all-IsLinked :
    (memory : ℕ → ℤ) (h : Tasks) (calls : List (ℕ × List ℕ))
    → IsLinked memory h
    → IsLinked memory (link_all h calls)
unfolding link_all
link_all-IsLinked memory h [] v = v
link_all-IsLinked memory h ((this, pre_tasks) ∷ calls) v =
    link_all-IsLinked memory (set_precedes h this pre_tasks) calls
      (set_precedes-IsLinked memory h this pre_tasks v)

-- However `set_precede` is called on new tasks: a task stands among the successors of another as
-- often as that one stands among the tasks it waits for, and its `condition_` is the number of
-- these above whatever the uninitialised field held.
pub link_all_lem :
    (memory : ℕ → ℤ) (calls : List (ℕ × List ℕ))
    → IsLinked memory (link_all (λ t. new_task (memory t)) calls)
unfolding new_task ◌+ℤ◌
link_all_lem memory calls =
    link_all-IsLinked memory (λ t. new_task (memory t)) calls
      (record { mirrored = λ a b. refl; counted = λ b. ground arith })
