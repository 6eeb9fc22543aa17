-- ===== src/Task/Dequeue.antt =====
-- `Dequeue` on a queue.
use lavoro_l.Base.{
  has, Distinct, ◌≡◌, ◌≢◌, refl, true, false, ◌||◌, List, [], ◌∷◌, ◌++◌, ◌==◌, if◌then◌else◌, arith,
  ◌∙◌, inl, inr, Bool-cases,
}
use lavoro_l.Task.{Ptr, null, Tasks, update, dequeue}
use lavoro_l.Task.Chain.{Chain, IsQueue, Agree, frame, has-null}

-- The task before `p`, in `xs` behind `prev`.
abbrev pub last_or : Ptr → List Ptr → Ptr
last_or prev [] = prev
last_or prev (x ∷ xs) = last_or x xs

abbrev pub first_or_null : List Ptr → Ptr
first_or_null [] = null
first_or_null (x ∷ xs) = x

-- The links that `Dequeue` of `p` leaves, between `l` and `r`.
abbrev pub unlinked : Ptr → Ptr → Ptr → Tasks → Tasks
unlinked p l r t = record t {
  left = update (if r == null then t.left else update t.left r l) p null;
  right = update (if l == null then t.right else update t.right l r) p null;
}

-- A list without `p`, `l` and `r` keeps its links.
Agree-unlinked :
    (p l r : Ptr) (t : Tasks) (xs : List Ptr)
    → has p xs ≡ false
    → has l xs ≡ false
    → has r xs ≡ false
    → Agree t (unlinked p l r t) xs
Agree-unlinked p l r t [] hp hl hr = tt
Agree-unlinked p l r t (x ∷ xs) hp hl hr = ground (arith, Agree-unlinked p l r t xs)

-- The part behind `p`, hung onto `l`.
rest-Chain :
    (p l r : Ptr) (t : Tasks) (xs : List Ptr)
    → Chain t p r xs
    → Distinct xs
    → has p xs ≡ false
    → has l xs ≡ false
    → Chain (unlinked p l r t) l r xs
rest-Chain p l r t [] c d hp hl = c
rest-Chain p l r t (x ∷ xs) (e, nz, li, le, c) (out, d) hp hl =
    let one : (x == r) ≡ true = ground arith in
    let some_r : (r == null) ≡ false = ground arith in
    let not_p : (x == p) ≡ false = ground arith in
    let not_l : (x == l) ≡ false = ground arith in
    let right_same : (unlinked p l r t).right x ≡ t.right x = ground arith in
    let left_new : (unlinked p l r t).left x ≡ l = ground arith in
    (
      e,
      nz,
      li,
      left_new,
      rw right_same (
          frame t (unlinked p l r t) x (t.right x) xs
            (Agree-unlinked p l r t xs (ground arith) (ground arith) (rw e out)) c),
    )

pub has-append : (a : Ptr) (xs ys : List Ptr) → has a (xs ++ ys) ≡ (has a xs || has a ys)
has-append a [] ys = refl
has-append a (x ∷ xs) ys = ground (arith, has-append a xs ys)

last_or-ne : (a x : Ptr) (xs : List Ptr) → has a (x ∷ xs) ≡ false → last_or x xs ≢ a
last_or-ne a x [] h = ground arith
last_or-ne a x (y ∷ xs) h = last_or-ne a y xs (ground arith)

-- What a chain says of the task `p` inside it.
pub record Inside (t : Tasks) (prev p : Ptr) (xs ys : List Ptr) : Type 0 where
  pub ne_null : p ≢ null
  pub before : t.left p ≡ last_or prev xs
  pub after : Chain t p (t.right p) ys

pub Chain-Inside :
    (t : Tasks) (prev q p : Ptr) (xs ys : List Ptr)
    → Chain t prev q (xs ++ p ∷ ys)
    → Inside t prev p xs ys
Chain-Inside t prev q p [] ys (e, nz, li, le, c) = record { ne_null = nz; before = le; after = c }
Chain-Inside t prev q p (x ∷ xs) ys (e, nz, li, le, c) =
    let i = Chain-Inside t x (t.right x) p xs ys c in
    record { ne_null = i.ne_null; before = i.before; after = i.after }

-- Where the shortened chain begins.
abbrev entry : List Ptr → Ptr → Ptr → Ptr
entry [] q r = r
entry (x ∷ xs) q r = q

first-of-Chain :
    (t : Tasks) (prev q : Ptr) (xs : List Ptr) → Chain t prev q xs → q ≡ first_or_null xs
first-of-Chain t prev q [] c = c
first-of-Chain t prev q (x ∷ xs) c = c.0

ne_first : (a : Ptr) (xs : List Ptr) → has a xs ≡ false → a ≢ null → a ≢ first_or_null xs
ne_first a [] h n = n
ne_first a (x ∷ xs) h n = ground arith

-- The task in front of the gap has its right link renewed, and every earlier one keeps its own.
right-entry :
    (xs : List Ptr) (x r p : Ptr) (t : Tasks)
    → has x xs ≡ false
    → x ≢ null
    → (x == p) ≡ false
    → (unlinked p (last_or x xs) r t).right x ≡ entry xs (t.right x) r
right-entry [] x r p t out nz np = ground arith
right-entry (y ∷ xs) x r p t out nz np = let far = last_or-ne x y xs out in ground arith

unlink-Chain :
    (t : Tasks) (prev q p r : Ptr) (xs ys : List Ptr)
    → Chain t prev q (xs ++ p ∷ ys)
    → Distinct (xs ++ p ∷ ys)
    → has prev (xs ++ p ∷ ys) ≡ false
    → r ≡ t.right p
    → Chain (unlinked p (last_or prev xs) r t) prev (entry xs q r) (xs ++ ys)
unlink-Chain t prev q p r [] ys (e, nz, li, le, c) (out, d) hp er =
    rest-Chain p prev r t ys (rw er c) d out (ground arith)
unlink-Chain t prev q p r (x ∷ xs) ys (e, nz, li, le, c) (out, d) hp er =
    let i = Chain-Inside t x (t.right x) p xs ys c in
    let r_first = er ∙ first-of-Chain t p (t.right p) ys i.after in
    let parts = has-append x xs (p ∷ ys) in
    let not_p : (x == p) ≡ false = ground arith in
    let not_r : x ≢ r = let n = ne_first x ys (ground arith) nz in ground arith in
    let left_same : (unlinked p (last_or x xs) r t).left x ≡ t.left x = ground arith in
    (
      e,
      nz,
      li,
      left_same ∙ le,
      rw (right-entry xs x r p t (ground arith) nz not_p)
          (unlink-Chain t x (t.right x) p r xs ys c d out er),
    )

Distinct-remove :
    (xs : List Ptr) (p : Ptr) (ys : List Ptr) → Distinct (xs ++ p ∷ ys) → Distinct (xs ++ ys)
Distinct-remove [] p ys d = d.1
Distinct-remove (x ∷ xs) p ys d =
    let parts = has-append x xs (p ∷ ys) in
    let joined = has-append x xs ys in (ground (arith, d.0), Distinct-remove xs p ys d.1)

dequeue-eq :
    (p : Ptr) (t : Tasks)
    → dequeue p t ≡ record (unlinked p (t.left p) (t.right p) t) {
      queue = if p == t.queue then t.right p else t.queue;
    }
unfolding dequeue
dequeue-eq p t = elim (Bool-cases (t.left p == null)) [
  | inl no_l ↦ elim (Bool-cases (t.right p == null)) [
    | inl no_r ↦ rw (no_l, no_r) refl
    | inr some_r ↦ rw (no_l, some_r) refl
  ]
  | inr some_l ↦ elim (Bool-cases (t.right p == null)) [
    | inl no_r ↦ rw (some_l, no_r) refl
    | inr some_r ↦ rw (some_l, some_r) refl
  ]
]

queue-entry :
    (t : Tasks) (prev q p r : Ptr) (xs ys : List Ptr)
    → Chain t prev q (xs ++ p ∷ ys)
    → Distinct (xs ++ p ∷ ys)
    → (if p == q then r else q) ≡ entry xs q r
queue-entry t prev q p r [] ys c d = ground arith
queue-entry t prev q p r (x ∷ xs) ys c d =
    let parts = has-append x xs (p ∷ ys) in ground (arith, d.0)

-- `Dequeue` of a task anywhere in the queue takes out that task alone, keeps the order of the others
-- and leaves the task's own links null.
pub dequeue_lem :
    (p : Ptr) (xs ys : List Ptr) {t : Tasks}
    → IsQueue t (xs ++ p ∷ ys)
    → IsQueue (dequeue p t) (xs ++ ys)
      × ((dequeue p t).left p ≡ null)
      × ((dequeue p t).right p ≡ null)
dequeue_lem p xs ys {t} q =
    let i = Chain-Inside t null t.queue p xs ys q.chain in
    let self : (p == p) ≡ true = ground arith in
    rw (dequeue-eq p t) (
      record {
        chain =
            rw (queue-entry t null t.queue p (t.right p) xs ys q.chain q.distinct, i.before)
              (unlink-Chain t null t.queue p (t.right p) xs ys q.chain q.distinct
                (has-null t null t.queue (xs ++ p ∷ ys) q.chain) refl);
        distinct = Distinct-remove xs p ys q.distinct;
      },
      rw self refl,
      rw self refl,
    )
