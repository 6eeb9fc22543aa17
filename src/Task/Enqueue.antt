-- ===== src/Task/Enqueue.antt =====
-- `Enqueue`, `AddTask` and `IsRunning` on a queue.
use lavoro_l.Base.{
  has, Distinct, ◌≡◌, ◌≢◌, ◌⊎◌, refl, true, false, List, [], ◌∷◌, ◌==◌, if◌then◌else◌, arith, sym,
  ◌∙◌, inl, inr, Bool-cases,
}
use lavoro_l.Task.{Ptr, null, Tasks, update, is_running, enqueue, add_task}
use lavoro_l.Task.Chain.{Chain, IsQueue, Agree, frame}

-- A new right link at `p` and a new left link at `q` are seen by no other task.
Agree-link :
    (p q l : Ptr) (t : Tasks) (xs : List Ptr)
    → has p xs ≡ false
    → has q xs ≡ false
    → Agree t (record t { queue = p; right = update t.right p l; left = update t.left q p }) xs
Agree-link p q l t [] hp hq = tt
Agree-link p q l t (x ∷ xs) hp hq = ground (arith, Agree-link p q l t xs)

enqueue-cons :
    (p q : Ptr) (t : Tasks) (xs : List Ptr)
    → Chain t null q xs
    → Distinct xs
    → t.queue ≡ q
    → has p xs ≡ false
    → p ≢ null
    → t.live p ≡ true
    → t.left p ≡ null
    → IsQueue (enqueue p t) (p ∷ xs)
unfolding enqueue
enqueue-cons p q t [] c d e out nz l f =
    let last : (t.queue == null) ≡ true = ground arith in
    let self : (p == p) ≡ true = ground arith in
    rw last (record { chain = rw self (refl, nz, l, f, e ∙ c); distinct = (refl, tt) })
enqueue-cons p q t (x ∷ xs) (qx, xnz, xl, xf, c) d e out nz l f =
    let front : t.queue ≡ x = e ∙ qx in
    let more : (t.queue == null) ≡ false = ground arith in
    let self : (p == p) ≡ true = ground arith in
    let head : (x == t.queue) ≡ true = ground arith in
    let other : (p == t.queue) ≡ false = ground arith in
    let apart : (x == p) ≡ false = ground arith in
    rw more (record {
      chain =
          rw (self, other, head, apart)
            (
              refl,
              nz,
              l,
              f,
              (
                front,
                xnz,
                xl,
                refl,
                frame t
                    (record t {
                      queue = p;
                      right = update t.right p t.queue;
                      left = update t.left t.queue p;
                    })
                    x (t.right x) xs
                    (Agree-link p t.queue t.queue t xs (ground arith) (rw front d.0)) c,
              ),
            );
      distinct = (out, d);
    })

-- `Enqueue` puts a task that exists, is in no queue and has no left neighbour in front of the queue.
pub enqueue_lem :
    (p : Ptr) {t : Tasks} {xs : List Ptr}
    → IsQueue t xs
    → has p xs ≡ false
    → p ≢ null
    → t.live p ≡ true
    → t.left p ≡ null
    → IsQueue (enqueue p t) (p ∷ xs)
enqueue_lem p {t} {xs} q out nz l f = enqueue-cons p t.queue t xs q.chain q.distinct refl out nz l f

-- A task of the queue is its head, or has a left neighbour.
left-has :
    (p : Ptr) (t : Tasks) (prev q : Ptr) (xs : List Ptr)
    → Chain t prev q xs
    → has p xs ≡ true
    → (p ≡ q) × (t.left p ≡ prev) ⊎ (t.left p ≢ null)
left-has p t prev q [] c h = absurd (cc)
left-has p t prev q (x ∷ xs) (qx, nz, l, f, c) h = elim (Bool-cases (p == x)) [
  | inl here ↦ inl (ground arith, ground arith)
  | inr later ↦ elim (left-has p t x (t.right x) xs c (ground arith)) [
    | inl next ↦ inr (λ z. nz (sym next.1 ∙ z))
    | inr more ↦ inr more
  ]
]

has-head :
    (t : Tasks) (prev q : Ptr) (xs : List Ptr) → Chain t prev q xs → q ≢ null → has q xs ≡ true
has-head t prev q [] c n = absurd (n c)
has-head t prev q (x ∷ xs) c n = ground arith

-- `IsRunning` tells the tasks of the queue from the idle ones, whose links are both null.
is_running-eq-has :
    (p : Ptr) {t : Tasks} {xs : List Ptr}
    → IsQueue t xs
    → p ≢ null
    → (has p xs ≡ false → (t.left p ≡ null) × (t.right p ≡ null))
    → is_running p t ≡ has p xs
unfolding is_running
is_running-eq-has p {t} {xs} q nz idle = elim (Bool-cases (has p xs)) [
  | inl queued ↦ ground (arith, left-has p t null t.queue xs q.chain queued)
  | inr out ↦ ground (arith, idle out, has-head t null t.queue xs q.chain)
]

-- `AddTask` puts an idle task in front of the queue, and leaves a queue that has the task already as
-- it is.
pub add_task_lem :
    (p : Ptr) {t : Tasks} {xs : List Ptr}
    → IsQueue t xs
    → p ≢ null
    → t.live p ≡ true
    → (has p xs ≡ false → (t.left p ≡ null) × (t.right p ≡ null))
    → IsQueue (add_task p t) (if has p xs then xs else (p ∷ xs))
unfolding add_task
add_task_lem p {t} {xs} q nz l idle =
    rw (is_running-eq-has p q nz idle) (elim (Bool-cases (has p xs)) [
      | inl queued ↦ rw queued q
      | inr out ↦ rw out (enqueue_lem p q out nz l (idle out).0)
    ])
