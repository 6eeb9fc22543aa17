-- ===== src/Boxes/Board.antt =====
-- The boxes are those of a chess board.
use lavoro_l.Base.{
  ℕ, zero, suc, ◌+◌, ◌*◌, ◌/◌, ◌%◌, ◌≤◌, ◌<◌, ◌≡◌, ◌≢◌, refl, Bool, List, ◌==◌, set, get_or, length,
  length-set, get_or-set_self, get_or-set_ne, arith, Bool-cases, inl, inr, ◌∙◌, sym, ap,
}
use lavoro_l.Boxes.{color, turn, fill_row, fill_rows, fill_boxes}

-- The boxes at even places are red, the others are green.
abbrev pub is_even_box : ℕ → ℕ → Bool
is_even_box x y = (x / 32 + y / 32) % 2 == 0

-- The colour before column `x` of row `y`: that of the column before it.
abbrev before : ℕ → ℕ → Bool
before y zero = is_even_box zero y
before y (suc x) = is_even_box x y

turn-before : (y x : ℕ) → turn x (before y x) ≡ is_even_box x y
turn-before y zero = ground arith
turn-before y (suc x) = elim (Bool-cases (suc x % 32 == 0)) [
  | inl edge ↦
      let z : suc x % 32 ≡ 0 = ground arith in
      let next : suc x / 32 ≡ x / 32 + 1 = omega arith in rw next (ground arith)
  | inr inside ↦
      let nz : suc x % 32 ≢ 0 = λ z. absurd (ground arith) in
      let same : suc x / 32 ≡ x / 32 = omega arith in rw same (ground arith)
]

before-next : (y x : ℕ) → before y (x + 1) ≡ is_even_box x y
before-next y x = let e : x + 1 ≡ suc x = omega arith in rw e refl

module _ (width : ℕ) where
  -- The cells outside of the row's stay.
  fill_row-other :
      (n y x : ℕ) (b : Bool) (buffer : List ℕ) (k : ℕ)
      → ((i : ℕ) → x ≤ i → i < x + n → y * width + i ≢ k)
      → get_or (fill_row width n y x b buffer) k 0 ≡ get_or buffer k 0
  unfolding fill_row
  fill_row-other zero y x b buffer k h = refl
  fill_row-other (suc n) y x b buffer k h =
      fill_row-other n y (x + 1) (turn x b) (set buffer (y * width + x) (color (turn x b))) k
        (λ i l r. h i (omega arith) (omega arith))
      ∙ get_or-set_ne buffer (y * width + x) k _ 0 (h x (omega arith) (omega arith))

  length-fill_row :
      (n y x : ℕ) (b : Bool) (buffer : List ℕ)
      → length (fill_row width n y x b buffer) ≡ length buffer
  unfolding fill_row
  length-fill_row zero y x b buffer = refl
  length-fill_row (suc n) y x b buffer =
      length-fill_row n y (x + 1) (turn x b) (set buffer (y * width + x) (color (turn x b)))
      ∙ length-set buffer (y * width + x) (color (turn x b))

  fill_row-here :
      (n y x a : ℕ) (buffer : List ℕ)
      → x ≤ a
      → a < x + n
      → y * width + a < length buffer
      → get_or (fill_row width n y x (before y x) buffer) (y * width + a) 0
        ≡ color (is_even_box a y)
  unfolding fill_row
  fill_row-here zero y x a buffer l r h = absurd (omega arith)
  fill_row-here (suc n) y x a buffer l r h = elim (Bool-cases (x == a)) [
    | inl here ↦
        let same : x ≡ a = ground arith in
        rw same (
          fill_row-other n y (a + 1) (turn a (before y a))
            (set buffer (y * width + a) (color (turn a (before y a)))) (y * width + a)
            (λ i l' r' e. omega arith)
          ∙ get_or-set_self buffer (y * width + a) _ 0 h
          ∙ ap color (turn-before y a))
    | inr there ↦
        let buffer' : List ℕ = set buffer (y * width + x) (color (turn x (before y x))) in
        let rest =
          fill_row-here n y (x + 1) a buffer' (ground arith) (omega arith)
            (omega (arith, length-set buffer (y * width + x) (color (turn x (before y x))))) in
        ap (λ b. get_or (fill_row width n y (x + 1) b buffer') (y * width + a) 0)
          (turn-before y x ∙ sym (before-next y x))
        ∙ rest
  ]

  -- Rows below the last written one.
  fill_rows-other :
      (n y : ℕ) (buffer : List ℕ) (k : ℕ)
      → k < y * width
      → get_or (fill_rows width n y buffer) k 0 ≡ get_or buffer k 0
  unfolding fill_rows
  fill_rows-other zero y buffer k h = refl
  fill_rows-other (suc n) y buffer k h =
      fill_rows-other n (y + 1) (fill_row width width y 0 (y / 32 % 2 == 0) buffer) k (grind arith)
      ∙ fill_row-other width y 0 (y / 32 % 2 == 0) buffer k (λ i l r e. omega arith)

  fill_rows-here :
      (n y a b : ℕ) (buffer : List ℕ)
      → a < width
      → y ≤ b
      → b < y + n
      → (y + n) * width ≤ length buffer
      → get_or (fill_rows width n y buffer) (b * width + a) 0 ≡ color (is_even_box a b)
  unfolding fill_rows
  fill_rows-here zero y a b buffer w l r h = absurd (omega arith)
  fill_rows-here (suc n) y a b buffer w l r h =
      let start : (y / 32 % 2 == 0) ≡ before y 0 = ground arith in
      let row : List ℕ = fill_row width width y 0 (y / 32 % 2 == 0) buffer in
      elim (Bool-cases (b == y)) [
        | inl here ↦
            let same : b ≡ y = ground arith in
            rw same (
              fill_rows-other n (y + 1) row (y * width + a) (grind arith)
              ∙ ap (λ c. get_or (fill_row width width y 0 c buffer) (y * width + a) 0) start
              ∙ fill_row-here width y 0 a buffer (omega arith) (omega arith) (grind arith))
        | inr there ↦ fill_rows-here n (y + 1) a b row w (ground arith) (omega arith) (
            let size = length-fill_row width y 0 (y / 32 % 2 == 0) buffer in
            let e : y + 1 + n ≡ y + suc n = omega arith in rw (e, size) h)
      ]

-- In a buffer with a cell for each pixel, `fill_boxes` draws a chess board of boxes of 32 by 32
-- pixels, the first one red.
pub fill_boxes_lem :
    (width height a b : ℕ) (buffer : List ℕ)
    → a < width
    → b < height
    → height * width ≤ length buffer
    → get_or (fill_boxes width height buffer) (b * width + a) 0 ≡ color (is_even_box a b)
unfolding fill_boxes
fill_boxes_lem width height a b buffer w l h =
    fill_rows-here width height 0 a b buffer w (omega arith) (omega arith)
      (let e : 0 + height ≡ height = omega arith in rw e h)
