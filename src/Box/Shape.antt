-- ===== src/Box/Shape.antt =====
-- The table `f` of src/packages/ACM/Box.cpp against the six faces of a box.
use lavoro_l.Base.{
  ℕ, ◌/◌, ◌%◌, ◌^◌, ◌<◌, ◌≡◌, refl, Bool, true, List, ◌==◌, if◌then◌else◌, arith, get_or,
  Bool-cases, inl, inr, ◌∙◌, sym, ap,
}
use lavoro_l.Box.{n_max, Sides, side, turned, meets, check, all_from}
use lavoro_l.Box.Loops.{all_from-each}

-- The plate in place `i`: the two sides of the rectangle that stands there, the other way round where bit
-- `i` of `m` turns it.
abbrev pub plate : Sides → List ℕ → ℕ → ℕ → ℕ × ℕ
plate a q m i =
    let sides : ℕ × ℕ = get_or a (get_or q i 0) (0, 0) in
    if m / 2 ^ i % 2 == 0 then sides else (sides.1, sides.0)

-- The six faces of a box with these edges: three pairs of opposite faces that are the same.
abbrev pub IsBox : Sides → List ℕ → ℕ → ℕ → ℕ → ℕ → Type 0
IsBox a q m width height depth =
    (plate a q m 0 ≡ (width, height))
    × (plate a q m 5 ≡ (height, width))
    × (plate a q m 1 ≡ (height, depth))
    × (plate a q m 4 ≡ (depth, height))
    × (plate a q m 2 ≡ (width, depth))
    × (plate a q m 3 ≡ (width, depth))

-- The two sides of a plate, as `check` finds them.
plate-side :
    (a : Sides) (q : List ℕ) (m i : ℕ)
    → plate a q m i ≡ (side a (get_or q i 0) (turned m i 0), side a (get_or q i 0) (turned m i 1))
plate-side a q m i = elim (Bool-cases (m / 2 ^ i % 2 == 0)) [
  | inl straight ↦ let bit : m / 2 ^ i % 2 ≡ 0 = ground arith in rw (straight, bit) refl
  | inr across ↦ let bit : m / 2 ^ i % 2 ≡ 1 = ground arith in rw (across, bit) refl
]

module _ (a : Sides) (q : List ℕ) (m : ℕ) where
  -- Side `k` of the plate in place `i`.
  abbrev edge_of : ℕ → ℕ → ℕ
  edge_of i k = side a (get_or q i 0) (turned m i k)

  pair : {x y u v : ℕ} → x ≡ u → y ≡ v → ◌≡◌ {A = ℕ × ℕ} (x, y) (u, v)
  pair e e' = rw (e, e') refl

  same-meets : (x y : ℕ) → x ≡ y → (x == y) ≡ true
  same-meets x y e = ground arith

  meets-same : (x y : ℕ) → (x == y) ≡ true → x ≡ y
  meets-same x y e = ground arith

  check-pair : check a q m ≡ true → (i j : ℕ) → i < n_max → j < n_max → meets a q m i j ≡ true
  unfolding check
  check-pair h i j l k =
      let row = all_from-each n_max 0 _ h i (omega arith) (omega arith) in
      all_from-each n_max 0 (meets a q m i) row j (omega arith) (omega arith)

  -- What `check` accepts is a box.
  pub check-IsBox :
      check a q m ≡ true → (width : ℕ) × (height : ℕ) × (depth : ℕ) × IsBox a q m width height depth
  unfolding meets
  check-IsBox h =
      let e01 : edge_of 0 1 ≡ edge_of 1 0 =
        meets-same _ _ (check-pair h 0 1 (omega arith) (omega arith)) in
      let e02 : edge_of 0 0 ≡ edge_of 2 0 =
        meets-same _ _ (check-pair h 0 2 (omega arith) (omega arith)) in
      let e03 : edge_of 0 0 ≡ edge_of 3 0 =
        meets-same _ _ (check-pair h 0 3 (omega arith) (omega arith)) in
      let e04 : edge_of 0 1 ≡ edge_of 4 1 =
        meets-same _ _ (check-pair h 0 4 (omega arith) (omega arith)) in
      let e12 : edge_of 1 1 ≡ edge_of 2 1 =
        meets-same _ _ (check-pair h 1 2 (omega arith) (omega arith)) in
      let e13 : edge_of 1 1 ≡ edge_of 3 1 =
        meets-same _ _ (check-pair h 1 3 (omega arith) (omega arith)) in
      let e15 : edge_of 1 0 ≡ edge_of 5 0 =
        meets-same _ _ (check-pair h 1 5 (omega arith) (omega arith)) in
      let e24 : edge_of 2 1 ≡ edge_of 4 0 =
        meets-same _ _ (check-pair h 2 4 (omega arith) (omega arith)) in
      let e25 : edge_of 2 0 ≡ edge_of 5 1 =
        meets-same _ _ (check-pair h 2 5 (omega arith) (omega arith)) in
      (
        edge_of 0 0,
        edge_of 0 1,
        edge_of 1 1,
        (
          plate-side a q m 0,
          plate-side a q m 5 ∙ pair (sym (e01 ∙ e15)) (sym (e02 ∙ e25)),
          plate-side a q m 1 ∙ pair (sym e01) refl,
          plate-side a q m 4 ∙ pair (sym (e12 ∙ e24)) (sym e04),
          plate-side a q m 2 ∙ pair (sym e02) (sym e12),
          plate-side a q m 3 ∙ pair (sym e03) (sym e13),
        ),
      )

  all_six :
      (f : ℕ → Bool)
      → f 0 ≡ true
      → f 1 ≡ true
      → f 2 ≡ true
      → f 3 ≡ true
      → f 4 ≡ true
      → f 5 ≡ true
      → all_from n_max 0 f ≡ true
  unfolding all_from
  all_six f e0 e1 e2 e3 e4 e5 = rw (e0, e1, e2, e3, e4, e5) refl

  -- A box is accepted.
  pub IsBox-check : (width height depth : ℕ) → IsBox a q m width height depth → check a q m ≡ true
  unfolding check meets
  IsBox-check width height depth (p0, p5, p1, p4, p2, p3) =
      let (a0, b0) = halves 0 p0 in
      let (a1, b1) = halves 1 p1 in
      let (a2, b2) = halves 2 p2 in
      let (a3, b3) = halves 3 p3 in
      let (a4, b4) = halves 4 p4 in
      let (a5, b5) = halves 5 p5 in
      all_six _
        (all_six (meets a q m 0) refl (equal b0 a1) (equal a0 a2) (equal a0 a3) (equal b0 b4) refl)
        (all_six (meets a q m 1) (equal a1 b0) refl (equal b1 b2) (equal b1 b3) refl (equal a1 a5))
        (all_six (meets a q m 2) (equal a2 a0) (equal b2 b1) refl refl (equal b2 a4) (equal a2 b5))
        (all_six (meets a q m 3) (equal a3 a0) (equal b3 b1) refl refl (equal b3 a4) (equal a3 b5))
        (all_six (meets a q m 4) (equal b4 b0) refl (equal a4 b2) (equal a4 b3) refl (equal b4 a5))
        (all_six (meets a q m 5) refl (equal a5 a1) (equal b5 a2) (equal b5 a3) (equal a5 b4) refl)
    where
      equal : {x y n : ℕ} → x ≡ n → y ≡ n → (x == y) ≡ true
      equal {x} {y} e e' = same-meets x y (e ∙ sym e')

      halves : (i : ℕ) {x y : ℕ} → plate a q m i ≡ (x, y) → (edge_of i 0 ≡ x) × (edge_of i 1 ≡ y)
      halves i e =
          let e' = sym (plate-side a q m i) ∙ e in
          (ap (λ (t : ℕ × ℕ). t.0) e', ap (λ (t : ℕ × ℕ). t.1) e')
