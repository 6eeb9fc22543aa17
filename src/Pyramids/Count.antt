-- ===== src/Pyramids/Count.antt =====
-- The count by its recurrence alone: no table and no remainder.
use lavoro_l.Base.{
  ℕ, zero, suc, ◌+◌, ◌-◌, ◌*◌, ◌≤◌, ◌<◌, ◌≡◌, ◌≢◌, refl, Bool, false, List, ◌==◌, if◌then◌else◌,
  arith, get_or, Bool-cases, inl, inr, ◌∙◌, if-else,
}

-- The sum of `n` terms, from that at `i` on.
abbrev pub sum_from : (ℕ → ℕ) → ℕ → ℕ → ℕ
sum_from g zero i = 0
sum_from g (suc n) i = g i + sum_from g n (i + 1)

pub sum_from-eq :
    (g h : ℕ → ℕ) (n i : ℕ)
    → ((k : ℕ) → i ≤ k → k < i + n → g k ≡ h k)
    → sum_from g n i ≡ sum_from h n i
sum_from-eq g h zero i e = refl
sum_from-eq g h (suc n) i e = omega (
  arith,
  e i (omega arith) (omega arith),
  sum_from-eq g h n (i + 1) (λ k l u. e k (omega arith) (omega arith)),
)

module _ (text : List ℕ) where
  abbrev pub same_char : ℕ → ℕ → Bool
  same_char i l = get_or text i 0 == get_or text l 0

  -- The walk starts at `l`; at each later visit `i` of the same node a subtree is split off.
  unfoldable pub trees : ℕ → ℕ → ℕ → ℕ
  trees zero l r = 0
  trees (suc n) l r =
      if l == r
      then 1
      else sum_from (λ i. if same_char i l then trees n (l + 1) (i - 1) * trees n i r else 0)
          (r - l) (l + 1)

  -- The number of trees; characters from `l` up to below `l` are none, and walk around no tree.
  unfoldable pub count : ℕ → ℕ → ℕ
  count l r = trees (suc r) l r

  -- More fuel changes nothing.
  trees_fuel : (n m l r : ℕ) → r < l + n → r < l + m → trees n l r ≡ trees m l r
  unfolding trees
  trees_fuel zero zero l r p q = refl
  trees_fuel zero (suc m) l r p q =
      let e : r - l ≡ 0 = omega arith in let d : (l == r) ≡ false = ground arith in rw (d, e) refl
  trees_fuel (suc n) zero l r p q =
      let e : r - l ≡ 0 = omega arith in let d : (l == r) ≡ false = ground arith in rw (d, e) refl
  trees_fuel (suc n) (suc m) l r p q = elim (Bool-cases (l == r)) [
    | inl same ↦ rw same refl
    | inr other ↦ rw other (
        sum_from-eq _ _ (r - l) (l + 1) (λ i lo up. ground (
          arith,
          trees_fuel n m (l + 1) (i - 1) (omega arith) (omega arith),
          trees_fuel n m i r (omega arith) (omega arith),
        )))
  ]

  pub count_one : (l : ℕ) → count l l ≡ 1
  unfolding count trees
  count_one l = ground arith

  pub count_none : (l r : ℕ) → r < l → count l r ≡ 0
  unfolding count trees
  count_none l r h = trees_fuel (suc r) 0 l r (omega arith) (omega arith)

  -- The recurrence.
  pub count-split :
      (l r : ℕ)
      → l ≢ r
      → count l r
        ≡ sum_from
            (λ i. if same_char i l then count (l + 1) (i - 1) * count i r else 0)
            (r - l)
            (l + 1)
  unfolding count trees
  count-split l r d =
      if-else (l == r) _ _ (ground arith)
      ∙ sum_from-eq _ _ (r - l) (l + 1) (λ i lo up. ground (
        arith,
        trees_fuel r (suc (i - 1)) (l + 1) (i - 1) (omega arith) (omega arith),
        trees_fuel r (suc r) i r (omega arith) (omega arith),
      ))
