-- ===== src/Explorer/Windows/Places.antt =====
-- Where the windows lie.
use lavoro_l.Base.{ℕ, ◌+◌, ◌-◌, ◌^◌, ◌≤◌, ◌<◌, ◌≡◌, arith}
use lavoro_l.Base.Int.{ℤ, pos, sub_ℕ}
use lavoro_l.Explorer.Windows.{Window, layout}

abbrev pub IsInside : ℕ → ℕ → ℕ → ℤ → ℤ → ℕ → ℕ → Type 0
IsInside w top bottom (pos x) (pos y) ow oh = (x + ow ≤ w) × (top ≤ y) × (y + oh ≤ bottom)
IsInside w top bottom x y ow oh = ⊥

-- The window lies in the rows from `top` to `bottom` of a screen `w` wide.
abbrev pub LiesIn : ℕ → ℕ → ℕ → Window → Type 0
LiesIn w top bottom o = IsInside w top bottom o.x o.y o.w o.h

-- On a screen that is as wide as the logo and higher than it by four rows, with a logo of 64 rows at
-- least: the logo and the box with the time lie in the rows of the logo, the pages below them, and all
-- inside of the screen.
pub layout-LiesIn :
    (w h logo_w logo_h : ℕ)
    → logo_w ≤ w
    → logo_h + 4 ≤ h
    → h < 2 ^ 32
    → 64 ≤ logo_h
    → LiesIn w 0 logo_h (layout w h logo_w logo_h).logo
      × LiesIn w 0 logo_h (layout w h logo_w logo_h).time
      × LiesIn w (logo_h + 4) h (layout w h logo_w logo_h).page
unfolding layout
layout-LiesIn w h logo_w logo_h a b c d =
    let left_over : sub_ℕ w logo_w ≡ pos (w - logo_w) = ground arith in
    let rows_over : sub_ℕ logo_h 64 ≡ pos (logo_h - 64) = ground arith in
    (rw left_over (omega arith), rw rows_over (omega arith), omega arith)
