-- ===== src/Box/Loops.antt =====
-- What the two kinds of loops of Box with a return in their body tell.
use lavoro_l.Base.{
  ℕ, zero, suc, ◌+◌, ◌≤◌, ◌<◌, ◌≡◌, ◌≢◌, refl, Bool, true, ◌==◌, arith, Bool-cases, inl, inr,
}
use lavoro_l.Box.{any_from, all_from}

pub any_from-found :
    (n i : ℕ) (f : ℕ → Bool)
    → any_from n i f ≡ true
    → (k : ℕ) × (i ≤ k) × (k < i + n) × (f k ≡ true)
unfolding any_from
any_from-found zero i f e = absurd (cc)
any_from-found (suc n) i f e = elim (Bool-cases (f i)) [
  | inl here ↦ (i, omega arith, omega arith, here)
  | inr not_here ↦
      let (k, l, u, h) = any_from-found n (i + 1) f (rw not_here at e) in
      (k, omega arith, omega arith, h)
]

pub any_from-finds :
    (n i : ℕ) (f : ℕ → Bool) (k : ℕ) → i ≤ k → k < i + n → f k ≡ true → any_from n i f ≡ true
unfolding any_from
any_from-finds zero i f k l u h = absurd (omega arith)
any_from-finds (suc n) i f k l u h = elim (Bool-cases (f i)) [
  | inl here ↦ rw here refl
  | inr not_here ↦
      let apart : i ≢ k = λ e. cc in
      rw not_here (any_from-finds n (i + 1) f k (omega (arith, apart)) (omega arith) h)
]

pub all_from-each :
    (n i : ℕ) (f : ℕ → Bool) → all_from n i f ≡ true → (k : ℕ) → i ≤ k → k < i + n → f k ≡ true
unfolding all_from
all_from-each zero i f e k l u = absurd (omega arith)
all_from-each (suc n) i f e k l u = elim (Bool-cases (f i)) [
  | inr wrong ↦ absurd (ground arith)
  | inl here ↦ elim (Bool-cases (i == k)) [
    | inl same ↦ let eq : i ≡ k = ground arith in rw (← eq) here
    | inr later ↦
        let apart : i ≢ k = ground arith in
        all_from-each n (i + 1) f (rw here at e) k (omega (arith, apart)) (omega arith)
  ]
]

pub all_from-all :
    (n i : ℕ) (f : ℕ → Bool) → ((k : ℕ) → i ≤ k → k < i + n → f k ≡ true) → all_from n i f ≡ true
unfolding all_from
all_from-all zero i f h = refl
all_from-all (suc n) i f h =
    rw (h i (omega arith) (omega arith))
      (all_from-all n (i + 1) f (λ k l u. h k (omega arith) (omega arith)))
