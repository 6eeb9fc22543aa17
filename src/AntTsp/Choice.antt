-- ===== src/AntTsp/Choice.antt =====
-- The city that `Ant::next` chooses, and the number of those that are free.
use lavoro_l.Base.{
  ℕ, zero, suc, ◌+◌, ◌≤◌, ◌<◌, ◌≡◌, refl, Bool, true, false, Option, none, some, ◌==◌,
  if◌then◌else◌, arith, Bool-cases, inl, inr,
}
use lavoro_l.AntTsp.{Doubles, choose, consider, mark}

-- Among the cities below `i` the choice is a free one, or there is none.
abbrev pub IsChoice : (ℕ → Bool) → ℕ → Option ℕ → Type 0
IsChoice can i none = (j : ℕ) → j < i → can j ≡ false
IsChoice can i (some c) = (can c ≡ true) × (c < i)

module _ (d : Doubles) (can : ℕ → Bool) (weight : ℕ → d.Double) where
  IsChoice-used : (i : ℕ) (o : Option ℕ) → can i ≡ false → IsChoice can i o → IsChoice can (i + 1) o
  IsChoice-used i none used h = λ j l. elim (Bool-cases (j == i)) [
    | inl same ↦ let e : j ≡ i = ground arith in rw e used
    | inr other ↦ h j (ground arith)
  ]
  IsChoice-used i (some c) used (free, l) = (free, omega arith)

  consider-IsChoice :
      (i : ℕ) (o : Option ℕ) (vmax : d.Double)
      → IsChoice can i o
      → IsChoice can (i + 1) (consider d can weight i (o, vmax)).0
  consider-IsChoice i none vmax h = elim (Bool-cases (can i)) [
    | inl free ↦ elim (Bool-cases (d.above (weight i) vmax)) [
      | inl more ↦ rw (free, more) (free, omega arith)
      | inr less ↦ rw (free, less) (free, omega arith)
    ]
    | inr used ↦ rw used (IsChoice-used i none used h)
  ]
  consider-IsChoice i (some c) vmax (free_c, l) = elim (Bool-cases (can i)) [
    | inl free ↦ elim (Bool-cases (d.above (weight i) vmax)) [
      | inl more ↦ rw (free, more) (free, omega arith)
      | inr less ↦ rw (free, less) (free_c, omega arith)
    ]
    | inr used ↦ rw used (free_c, omega arith)
  ]

  pub choose-IsChoice :
      (k i : ℕ) (best : Option ℕ × d.Double)
      → IsChoice can i best.0
      → IsChoice can (i + k) (choose d can weight k i best).0
  unfolding choose
  choose-IsChoice zero i best h = let e : i + 0 ≡ i = omega arith in rw e h
  choose-IsChoice (suc k) i best h =
      let e : i + suc k ≡ i + 1 + k = omega arith in
      rw e (
        choose-IsChoice k (i + 1) (consider d can weight i best)
          (consider-IsChoice i best.0 best.1 h))

-- The number of free cities below `k`.
abbrev pub free : (ℕ → Bool) → ℕ → ℕ
free can zero = 0
free can (suc k) = if can k then (1 + free can k) else free can k

pub free-none : (can : ℕ → Bool) (k : ℕ) → ((j : ℕ) → j < k → can j ≡ false) → free can k ≡ 0
free-none can zero h = refl
free-none can (suc k) h = rw (h k (omega arith)) (free-none can k (λ j l. h j (omega arith)))

pub free-some : (can : ℕ → Bool) (k c : ℕ) → can c ≡ true → c < k → 1 ≤ free can k
free-some can zero c f l = absurd (omega arith)
free-some can (suc k) c f l = elim (Bool-cases (can k)) [
  | inl this ↦ rw this (omega arith)
  | inr other ↦ elim (Bool-cases (c == k)) [
    | inl same ↦ let e : c ≡ k = ground arith in absurd (cc)
    | inr below ↦ rw other (free-some can k c f (ground arith))
  ]
]

pub free-all : (can : ℕ → Bool) (k : ℕ) → ((j : ℕ) → can j ≡ true) → free can k ≡ k
free-all can zero h = refl
free-all can (suc k) h = rw (h k, free-all can k h) (omega arith)

free-mark_above : (can : ℕ → Bool) (t k : ℕ) → k ≤ t → free (mark t false can) k ≡ free can k
free-mark_above can t zero l = refl
free-mark_above can t (suc k) l =
    let other : (k == t) ≡ false = ground arith in
    rw (other, free-mark_above can t k (omega arith)) refl

pub free-mark :
    (can : ℕ → Bool) (t k : ℕ) → can t ≡ true → t < k → 1 + free (mark t false can) k ≡ free can k
free-mark can t zero f l = absurd (omega arith)
free-mark can t (suc k) f l = elim (Bool-cases (k == t)) [
  | inl same ↦
      let e : k ≡ t = ground arith in
      let low = free-mark_above can t k (omega arith) in
      let here : can k ≡ true = rw e f in rw (same, here, low) refl
  | inr other ↦
      let rest = free-mark can t k f (ground arith) in
      elim (Bool-cases (can k)) [
        | inl this ↦ rw (other, this, rest) refl
        | inr none_here ↦ rw (other, none_here, rest) refl
      ]
]
