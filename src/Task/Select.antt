-- ===== src/Task/Select.antt =====
-- `DoEvents`: which task is chosen, and what is left of the queue.
use mathlib.Core.Path.{subst}
use lavoro_l.Base.{
  has, Distinct, ℕ, zero, suc, ◌≤◌, ◌≡◌, ◌≢◌, ◌⊎◌, refl, true, false, ◌||◌, List, [], ◌∷◌, ◌++◌,
  ◌==◌, arith, sym, inl, inr, Bool-cases, take, ltb,
}
use lavoro_l.Task.{Ptr, null, Tasks, select_length, select, free, dequeue, do_events}
use lavoro_l.Task.Chain.{Chain, IsQueue, Agree, frame, has-null}
use lavoro_l.Task.Dequeue.{dequeue_lem, has-append}

-- No task of `xs` has a smaller `Priority` than `s`.
abbrev pub Least : Tasks → Ptr → List Ptr → Type 0
Least t s [] = Unit {0}
Least t s (x ∷ xs) = (t.priority s ≤ t.priority x) × Least t s xs

pub record Chosen (t : Tasks) (best s : Ptr) (xs : List Ptr) : Type 0 where
  pub least : Least t s xs
  pub no_worse : best ≢ null → t.priority s ≤ t.priority best
  pub among : (s ≡ best) ⊎ (has s xs ≡ true)

module _ (t : Tasks) (best p x s : Ptr) (xs : List Ptr) (e : p ≡ x) where
  Chosen-better :
      p ≢ null
      → ((best == null) || ltb (t.priority p) (t.priority best)) ≡ true
      → Chosen t p s xs
      → Chosen t best s (x ∷ xs)
  Chosen-better nz h c =
      let low = c.no_worse nz in
      record {
        least = (rw (← e) low, c.least);
        no_worse = λ b. ground arith;
        among = elim c.among [ inl here ↦ inr (ground arith) | inr later ↦ inr (ground arith) ];
      }

  Chosen-worse :
      ((best == null) || ltb (t.priority p) (t.priority best)) ≡ false
      → Chosen t best s xs
      → Chosen t best s (x ∷ xs)
  Chosen-worse h c =
      let nz : best ≢ null = ground arith in
      let low = c.no_worse nz in
      record {
        least = (rw (← e) (ground arith), c.least);
        no_worse = c.no_worse;
        among = elim c.among [ inl here ↦ inl here | inr later ↦ inr (ground arith) ];
      }

select-Chosen :
    (t : Tasks) (prev p : Ptr) (xs : List Ptr) (n : ℕ) (best : Ptr)
    → Chain t prev p xs
    → Chosen t best (select n best p t) (take n xs)
unfolding select
select-Chosen t prev p [] zero best c = record {
  least = tt;
  no_worse = λ h. omega arith;
  among = inl refl;
}
select-Chosen t prev p (x ∷ xs) zero best c = record {
  least = tt;
  no_worse = λ h. omega arith;
  among = inl refl;
}
select-Chosen t prev p [] (suc n) best c =
    rw c (record { least = tt; no_worse = λ h. omega arith; among = inl refl })
select-Chosen t prev p (x ∷ xs) (suc n) best (e, nz, li, le, c) =
    let more : (p == null) ≡ false = ground arith in
    rw more (elim (Bool-cases ((best == null) || ltb (t.priority p) (t.priority best))) [
      | inl better ↦ rw better (
          Chosen-better t best p x _ (take n xs) e (ground arith) better
            (select-Chosen t x (t.right p) xs n p (rw e c)))
      | inr worse ↦ rw worse (
          Chosen-worse t best p x _ (take n xs) e worse
            (select-Chosen t x (t.right p) xs n best (rw e c)))
    ])

-- A task whose object is gone is in no chain, so the chains are kept.
Agree-free : (p : Ptr) (t : Tasks) (xs : List Ptr) → has p xs ≡ false → Agree t (free p t) xs
Agree-free p t [] h = tt
Agree-free p t (x ∷ xs) h = ground (arith, Agree-free p t xs)

has-remove : (p : Ptr) (xs ys : List Ptr) → Distinct (xs ++ p ∷ ys) → has p (xs ++ ys) ≡ false
has-remove p [] ys d = d.0
has-remove p (x ∷ xs) ys d =
    let parts = has-append x xs (p ∷ ys) in ground (arith, has-remove p xs ys, d.0)

has-take : (p : Ptr) (n : ℕ) (xs : List Ptr) → has p (take n xs) ≡ true → has p xs ≡ true
has-take p zero [] h = h
has-take p zero (x ∷ xs) h = absurd (cc)
has-take p (suc n) [] h = h
has-take p (suc n) (x ∷ xs) h = ground (arith, has-take p n xs)

-- The first task is the first candidate.
select_first :
    (n : ℕ) (p : Ptr) (t : Tasks) → p ≢ null → select (suc n) null p t ≡ select n p (t.right p) t
unfolding select
select_first n p t nz = ground arith

abbrev IsFirstChoice : Tasks → List Ptr → Ptr → Type 0
IsFirstChoice t xs p = (has p xs ≡ true) × Least t p xs

IsFirstChoice-cons :
    (t : Tasks) (p x s : Ptr) (xs : List Ptr)
    → p ≡ x
    → p ≢ null
    → Chosen t p s xs
    → IsFirstChoice t (x ∷ xs) s
IsFirstChoice-cons t p x s xs e nz c =
    let low = c.no_worse nz in
    (elim c.among [ inl here ↦ ground arith | inr later ↦ ground arith ], (rw (← e) low, c.least))

select-IsFirstChoice :
    (x : Ptr) (xs : List Ptr) {t : Tasks}
    → IsQueue t (x ∷ xs)
    → IsFirstChoice t (take select_length (x ∷ xs)) (select select_length null t.queue t)
select-IsFirstChoice x xs {t} q =
    let (e, nz, li, le, c) = q.chain in
    let head : t.queue ≢ null = ground arith in
    subst (λ s. IsFirstChoice t (take select_length (x ∷ xs)) s)
      (sym (select_first 3 t.queue t head))
      (IsFirstChoice-cons t t.queue x (select 3 t.queue (t.right t.queue) t) (take 3 xs) e head
        (select-Chosen t x (t.right t.queue) xs 3 t.queue (rw e c)))

-- With at least one task queued, `DoEvents` runs one of the first four, none of which has a smaller
-- `Priority`; if that task's `Run` leaves a queue with the task still in it, at any place, the task is
-- then taken out, the others stay in their order, and its object is gone.
pub do_events_lem :
    (run : Ptr → Tasks → Tasks) (x : Ptr) (xs : List Ptr) {t : Tasks}
    → IsQueue t (x ∷ xs)
    → ((p : Ptr)
        → has p (x ∷ xs) ≡ true
        → (before : List Ptr) × (after : List Ptr) × IsQueue (run p t) (before ++ p ∷ after))
    → (p : Ptr) × (before : List Ptr) × (after : List Ptr) × (has p (take select_length (x ∷ xs))
        ≡ true)
      × Least t p (take select_length (x ∷ xs))
      × IsQueue (run p t) (before ++ p ∷ after)
      × IsQueue (do_events run t) (before ++ after)
      × ((do_events run t).live p ≡ false)
unfolding do_events
do_events_lem run x xs {t} q runs =
    let p = select select_length null t.queue t in
    let (among, least) = select-IsFirstChoice x xs q in
    let ran = runs p (has-take p select_length (x ∷ xs) among) in
    let out = dequeue_lem p ran.0 ran.1 ran.2 in
    let u = dequeue p (run p t) in
    let some_p : (p == null) ≡ false =
      ground (arith, has-null t null t.queue (x ∷ xs) q.chain, has-take p select_length (x ∷ xs)) in
    (
      p,
      ran.0,
      ran.1,
      among,
      least,
      ran.2,
      rw some_p (record {
        chain =
            frame u (free p u) null u.queue (ran.0 ++ ran.1)
              (Agree-free p u (ran.0 ++ ran.1) (has-remove p ran.0 ran.1 ran.2.distinct))
              out.0.chain;
        distinct = out.0.distinct;
      }),
      rw some_p (ground arith),
    )
