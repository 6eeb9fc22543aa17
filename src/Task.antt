-- ===== src/Task.antt =====
-- src/ltask.hpp and src/ltask.cpp: the task queue, a doubly linked list of `LTask` objects through
-- `Left` and `Right`, with its head in `TaskQueue`. An object is an address; the heap is one function
-- for each field, and `live` says which objects exist: Task/Chain.antt has what keeps the links on
-- them. `Run` is virtual: it is the parameter `run` of `do_events`.
pub mod Chain
pub mod Enqueue
pub mod Dequeue
pub mod Select
use lavoro_l.Base.{
  ℕ, zero, suc, Bool, true, false, not, ◌||◌, Option, none, some, ◌==◌, if◌then◌else◌, ltb,
}

abbrev pub Ptr : Type 0
Ptr = ℕ

abbrev pub null : Ptr
null = 0

-- `TaskQueueSelectLength`
abbrev pub select_length : ℕ
select_length = 4

pub record Tasks : Type 0 where
  pub queue : Ptr
  pub live : Ptr → Bool
  pub priority : Ptr → ℕ
  pub left : Ptr → Ptr
  pub right : Ptr → Ptr

abbrev pub update {ℓ} : {A : Type ℓ} → (Ptr → A) → Ptr → A → Ptr → A
update f p v q = if q == p then v else f q

-- `L->Right = v` behind the test `if (L)`, and `R->Left = v` likewise.
abbrev pub link_right : Ptr → Ptr → Tasks → Tasks
link_right p v t = if p == null then t else record t { right = update t.right p v }

abbrev pub link_left : Ptr → Ptr → Tasks → Tasks
link_left p v t = if p == null then t else record t { left = update t.left p v }

-- `LTask::IsRunning`
unfoldable pub is_running : Ptr → Tasks → Bool
is_running p t = not (t.left p == null) || (not (t.right p == null) || (t.queue == p))

-- `LTask::Enqueue`
unfoldable pub enqueue : Ptr → Tasks → Tasks
enqueue p t = link_left t.queue p (record t { queue = p; right = update t.right p t.queue })

-- `LTask::Dequeue`
unfoldable pub dequeue : Ptr → Tasks → Tasks
dequeue p t =
    let l : Ptr = t.left p in
    let r : Ptr = t.right p in
    let t1 : Tasks = link_left r l (link_right l r t) in
    record t1 {
      left = update t1.left p null;
      right = update t1.right p null;
      queue = if p == t1.queue then r else t1.queue;
    }

-- `AddTask`
unfoldable pub add_task : Ptr → Tasks → Tasks
add_task p t = if is_running p t then t else enqueue p t

-- The loop of `DoEvents` over the first tasks of the queue: the rounds left, the task selected so
-- far and the task at hand.
unfoldable pub select : ℕ → Ptr → Ptr → Tasks → Ptr
select zero best p t = best
select (suc n) best p t =
    let better : Bool = (best == null) || ltb (t.priority p) (t.priority best) in
    let rest : Ptr = select n (if better then p else best) (t.right p) t in
    if p == null then best else rest

-- `delete selectedTask`
abbrev pub free : Ptr → Tasks → Tasks
free p t = record t { live = update t.live p false }

-- `DoEvents`
unfoldable pub do_events : (Ptr → Tasks → Tasks) → Tasks → Tasks
do_events run t =
    let p : Ptr = select select_length null t.queue t in
    if p == null then t else free p (dequeue p (run p t))
