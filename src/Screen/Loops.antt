-- ===== src/Screen/Loops.antt =====
-- Nested loops over the pixels, one pixel at a time.
use lavoro_l.Base.{
  ℕ, zero, suc, ◌+◌, ◌<◌, ◌≤◌, ◌≡◌, refl, Bool, ◌&&◌, ◌==◌, if◌then◌else◌, ltb, leb, arith, ◌∙◌,
}
use lavoro_l.Screen.{Screen, get_buffer, columns, rows}
use lavoro_l.Screen.Pixel.{IsScreen}
use lavoro_l.Screen.Draw.{IsKept}

-- Nested loops whose body at row `i` and column `j` changes that pixel alone, by `f`: the pixel
-- `(a, b)` is changed once.
module _ (put : ℕ → ℕ → Screen → Screen) (w h a b : ℕ) (m : Bool) (f : ℕ → ℕ)
    (local : (i j : ℕ) (t : Screen)
      → IsScreen t
      → t.w ≡ w
      → t.h ≡ h
      → t.has_mask ≡ m
      → j < w
      → IsKept t (put i j t)
        × (get_buffer (put i j t) a b
            ≡ (if (j == a) && (i == b) then f (get_buffer t a b) else get_buffer t a b))) where
  get_buffer-columns :
      (i n j : ℕ) (t : Screen)
      → IsScreen t
      → t.w ≡ w
      → t.h ≡ h
      → t.has_mask ≡ m
      → j + n ≤ w
      → IsKept t (columns (put i) n j t)
        × (get_buffer (columns (put i) n j t) a b ≡ (
            if (i == b) && (leb j a && ltb a (j + n))
            then f (get_buffer t a b)
            else get_buffer t a b))
  unfolding columns
  get_buffer-columns i zero j t k ew eh em fits =
      (record { screen = k; width = refl; height = refl; mask = refl }, ground arith)
  get_buffer-columns i (suc n) j t k ew eh em fits =
      let (kept, one) = local i j t k ew eh em (omega arith) in
      let (kept', rest) =
        get_buffer-columns i n (j + 1) (put i j t) kept.screen (kept.width ∙ ew) (kept.height ∙ eh)
          (kept.mask ∙ em) (omega arith) in
      (
        record {
          screen = kept'.screen;
          width = kept'.width ∙ kept.width;
          height = kept'.height ∙ kept.height;
          mask = kept'.mask ∙ kept.mask;
        },
        rest ∙ ground (arith, one),
      )

  pub get_buffer-rows :
      (n i : ℕ) (t : Screen)
      → IsScreen t
      → t.w ≡ w
      → t.h ≡ h
      → t.has_mask ≡ m
      → a < w
      → IsKept t (rows put w n i t)
        × (get_buffer (rows put w n i t) a b
            ≡ (if leb i b && ltb b (i + n) then f (get_buffer t a b) else get_buffer t a b))
  unfolding rows
  get_buffer-rows zero i t k ew eh em pa =
      (record { screen = k; width = refl; height = refl; mask = refl }, ground arith)
  get_buffer-rows (suc n) i t k ew eh em pa =
      let (kept, one) = get_buffer-columns i w 0 t k ew eh em (omega arith) in
      let (kept', rest) =
        get_buffer-rows n (i + 1) (columns (put i) w 0 t) kept.screen (kept.width ∙ ew)
          (kept.height ∙ eh) (kept.mask ∙ em) pa in
      (
        record {
          screen = kept'.screen;
          width = kept'.width ∙ kept.width;
          height = kept'.height ∙ kept.height;
          mask = kept'.mask ∙ kept.mask;
        },
        rest ∙ ground (arith, one),
      )
