-- ===== src/Examples/Queue.antt =====
-- A queue of two tasks, of which the second is the more urgent one, and an idle task.
use lavoro_l.Base.{
  has, ℕ, suc, ◌≡◌, ◌≢◌, refl, true, false, List, [], ◌∷◌, ◌++◌, ◌==◌, arith, if◌then◌else◌,
  Bool-cases, inl, inr, leb,
}
use lavoro_l.Task.{Ptr, null, Tasks, dequeue, add_task, do_events}
use lavoro_l.Task.Chain.{IsQueue}
use lavoro_l.Task.Enqueue.{add_task_lem}
use lavoro_l.Task.Dequeue.{dequeue_lem}
use lavoro_l.Task.Select.{Least, do_events_lem}

abbrev two : Tasks
two = record {
  queue = 1;
  live = λ p. leb p 3;
  priority = λ p. if p == 1 then 9 else 5;
  left = λ p. if p == 2 then 1 else 0;
  right = λ p. if p == 1 then 2 else 0;
}

some_task : (n : ℕ) → suc n ≢ null
some_task n e = omega arith

two-IsQueue : IsQueue two (1 ∷ 2 ∷ [])
two-IsQueue = record {
  chain = (refl, some_task 0, refl, refl, (refl, some_task 1, refl, refl, refl));
  distinct = (refl, (refl, tt));
}

dequeue_lem_example :
    IsQueue (dequeue 1 two) (2 ∷ []) × ((dequeue 1 two).left 1 ≡ 0) × ((dequeue 1 two).right 1 ≡ 0)
dequeue_lem_example = dequeue_lem 1 [] (2 ∷ []) two-IsQueue

add_task_lem_example : IsQueue (add_task 3 two) (3 ∷ 1 ∷ 2 ∷ [])
add_task_lem_example = add_task_lem 3 two-IsQueue (some_task 2) refl (λ e. (refl, refl))

-- A task whose `Run` does nothing.
abbrev idle : Ptr → Tasks → Tasks
idle p t = t

place :
    (p : Ptr)
    → has p (1 ∷ 2 ∷ []) ≡ true
    → (before : List Ptr) × (after : List Ptr) × IsQueue (idle p two) (before ++ p ∷ after)
place p h = elim (Bool-cases (p == 1)) [
  | inl one ↦ let e : p ≡ 1 = ground arith in rw e ([], 2 ∷ [], two-IsQueue)
  | inr other ↦ let e : p ≡ 2 = ground arith in rw e (1 ∷ [], [], two-IsQueue)
]

do_events_lem_example :
    (p : Ptr) × (before : List Ptr) × (after : List Ptr) × (has p (1 ∷ 2 ∷ []) ≡ true)
    × Least two p (1 ∷ 2 ∷ [])
    × IsQueue two (before ++ p ∷ after)
    × IsQueue (do_events idle two) (before ++ after)
    × ((do_events idle two).live p ≡ false)
do_events_lem_example = do_events_lem idle 1 (2 ∷ []) two-IsQueue place
