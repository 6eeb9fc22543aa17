-- ===== src/Boxes.antt =====
-- `fill_boxes` of main.cpp, which filldemo draws: boxes of 32 by 32 pixels in two colours.
pub mod Board
use lavoro_l.Base.{
  ℕ, zero, suc, ◌+◌, ◌*◌, ◌/◌, ◌%◌, Bool, true, false, not, ◌&&◌, List, ◌==◌, if◌then◌else◌, set,
}

-- `Red` and `Green` as UINT32
abbrev pub red : ℕ
red = 16711680

abbrev pub green : ℕ
green = 65280

-- `Color` is `&Red` where this is true.
abbrev pub color : Bool → ℕ
color is_red = if is_red then red else green

abbrev pub turn : ℕ → Bool → Bool
turn x is_red = if (x % 32 == 0) && not (x == 0) then not is_red else is_red

module _ (width : ℕ) where
  -- The inner loop: the rounds left, `y`, `x` and `Color`.
  unfoldable pub fill_row : ℕ → ℕ → ℕ → Bool → List ℕ → List ℕ
  fill_row zero y x is_red buffer = buffer
  fill_row (suc n) y x is_red buffer =
      let is_red' : Bool = turn x is_red in
      fill_row n y (x + 1) is_red' (set buffer (y * width + x) (color is_red'))

  -- The outer loop
  unfoldable pub fill_rows : ℕ → ℕ → List ℕ → List ℕ
  fill_rows zero y buffer = buffer
  fill_rows (suc n) y buffer = fill_rows n (y + 1) (fill_row width y 0 (y / 32 % 2 == 0) buffer)

unfoldable pub fill_boxes : ℕ → ℕ → List ℕ → List ℕ
fill_boxes width height buffer = fill_rows width height 0 buffer
