-- ===== src/Task/Chain.antt =====
-- The queue as the list of its tasks, head first.
use lavoro_l.Base.{has, Distinct, ◌≡◌, ◌≢◌, refl, true, false, List, [], ◌∷◌, arith, ◌∙◌}
use lavoro_l.Task.{Ptr, null, Tasks}

-- From `p` the `Right` links lead through the tasks `xs` to the end, and each `Left` link back, that
-- of the first task to `prev`.
abbrev pub Chain : Tasks → Ptr → Ptr → List Ptr → Type 0
Chain t prev p [] = p ≡ null
Chain t prev p (x ∷ xs) =
    (p ≡ x) × (x ≢ null) × (t.live x ≡ true) × (t.left x ≡ prev) × Chain t x (t.right x) xs

pub record IsQueue (t : Tasks) (xs : List Ptr) : Type 0 where
  pub chain : Chain t null t.queue xs
  pub distinct : Distinct xs

-- Two heaps agree on the tasks `xs`.
abbrev pub Agree : Tasks → Tasks → List Ptr → Type 0
Agree t u [] = Unit {0}
Agree t u (x ∷ xs) =
    (u.live x ≡ t.live x) × (u.left x ≡ t.left x) × (u.right x ≡ t.right x) × Agree t u xs

-- A chain survives any change that spares its tasks.
pub frame :
    (t u : Tasks) (prev p : Ptr) (xs : List Ptr)
    → Agree t u xs
    → Chain t prev p xs
    → Chain u prev p xs
frame t u prev p [] a c = c
frame t u prev p (x ∷ xs) (al, ae, ar, a) (e, nz, li, le, c) =
    (e, nz, al ∙ li, ae ∙ le, rw ar (frame t u x (t.right x) xs a c))

-- No task of a chain is the null pointer.
pub has-null : (t : Tasks) (prev p : Ptr) (xs : List Ptr) → Chain t prev p xs → has null xs ≡ false
has-null t prev p [] c = refl
has-null t prev p (x ∷ xs) c = ground (arith, has-null t x (t.right x) xs)
