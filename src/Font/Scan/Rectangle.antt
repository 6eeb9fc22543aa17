-- ===== src/Font/Scan/Rectangle.antt =====
-- The rectangle around what is drawn.
use lavoro_l.Base.{ℕ, zero, suc, ◌+◌, ◌≤◌, ◌<◌, ◌≡◌, true, arith, Bool-cases, inl, inr, ◌==◌}
use lavoro_l.Screen.{Screen}
use lavoro_l.Font.Scan.{Rect, is_drawn, widen, widen_row, widen_rows, rect}

-- The pixel lies between the least and the greatest row and column.
pub record IsAround (b : Rect) (x y : ℕ) : Type 0 where
  pub left : b.min_w ≤ x
  pub right : x ≤ b.max_w
  pub top : b.min_h ≤ y
  pub bottom : y ≤ b.max_h

module _ (bitmap : Screen) where
  widen-IsAround : (i j x y : ℕ) (b : Rect) → IsAround b x y → IsAround (widen bitmap i j b) x y
  widen-IsAround i j x y b h = elim (Bool-cases (is_drawn bitmap j i)) [
    | inl ink ↦ rw ink (record {
      left = let l = h.left in ground arith;
      right = let l = h.right in ground arith;
      top = let l = h.top in ground arith;
      bottom = let l = h.bottom in ground arith;
    })
    | inr none_here ↦ rw none_here h
  ]

  widen-here : (i j : ℕ) (b : Rect) → is_drawn bitmap j i ≡ true → IsAround (widen bitmap i j b) j i
  widen-here i j b e = rw e (record {
    left = ground arith;
    right = ground arith;
    top = ground arith;
    bottom = ground arith;
  })

  widen_row-IsAround :
      (n i j x y : ℕ) (b : Rect) → IsAround b x y → IsAround (widen_row bitmap n i j b) x y
  unfolding widen_row
  widen_row-IsAround zero i j x y b h = h
  widen_row-IsAround (suc n) i j x y b h =
      widen_row-IsAround n i (j + 1) x y (widen bitmap i j b) (widen-IsAround i j x y b h)

  widen_row-here :
      (n i j x : ℕ) (b : Rect)
      → is_drawn bitmap x i ≡ true
      → j ≤ x
      → x < j + n
      → IsAround (widen_row bitmap n i j b) x i
  unfolding widen_row
  widen_row-here zero i j x b e l r = absurd (omega arith)
  widen_row-here (suc n) i j x b e l r = elim (Bool-cases (x == j)) [
    | inl here ↦
        let same : x ≡ j = ground arith in
        widen_row-IsAround n i (j + 1) x i (widen bitmap i j b)
          (rw same (widen-here i j b (rw same at e)))
    | inr later ↦ widen_row-here n i (j + 1) x (widen bitmap i j b) e (ground arith) (omega arith)
  ]

  widen_rows-IsAround :
      (n i x y : ℕ) (b : Rect) → IsAround b x y → IsAround (widen_rows bitmap n i b) x y
  unfolding widen_rows
  widen_rows-IsAround zero i x y b h = h
  widen_rows-IsAround (suc n) i x y b h =
      widen_rows-IsAround n (i + 1) x y (widen_row bitmap bitmap.w i 0 b)
        (widen_row-IsAround bitmap.w i 0 x y b h)

  widen_rows-here :
      (n i x y : ℕ) (b : Rect)
      → is_drawn bitmap x y ≡ true
      → x < bitmap.w
      → i ≤ y
      → y < i + n
      → IsAround (widen_rows bitmap n i b) x y
  unfolding widen_rows
  widen_rows-here zero i x y b e w l r = absurd (omega arith)
  widen_rows-here (suc n) i x y b e w l r = elim (Bool-cases (y == i)) [
    | inl here ↦
        let same : y ≡ i = ground arith in
        widen_rows-IsAround n (i + 1) x y (widen_row bitmap bitmap.w i 0 b)
          (rw same (widen_row-here bitmap.w i 0 x b (rw same at e) (omega arith) (omega arith)))
    | inr later ↦
        widen_rows-here n (i + 1) x y (widen_row bitmap bitmap.w i 0 b) e w (ground arith)
          (omega arith)
  ]

  -- Every pixel of the picture that is not of the colour of the first one lies in the rectangle that
  -- is cut into characters.
  pub rect-bounds :
      (x y : ℕ)
      → x < bitmap.w
      → y < bitmap.h
      → is_drawn bitmap x y ≡ true
      → ((rect bitmap).min_w ≤ x)
        × (x < (rect bitmap).max_w)
        × ((rect bitmap).min_h ≤ y)
        × (y < (rect bitmap).max_h)
  unfolding rect
  rect-bounds x y w h e =
      let around =
        widen_rows-here bitmap.h 0 x y
          (record { min_w = bitmap.w; max_w = 0; min_h = bitmap.h; max_h = 0 }) e w (omega arith)
          (omega arith) in
      let right = around.right in
      let bottom = around.bottom in (around.left, omega arith, around.top, omega arith)
