-- ===== src/Screen/Draw.antt =====
-- `Draw` of one screen on another.
use lavoro_l.Base.{
  ℕ, zero, suc, ◌+◌, ◌-◌, ◌<◌, ◌≤◌, ◌≡◌, refl, ◌&&◌, ◌==◌, if◌then◌else◌, ltb, leb, arith, ap, ◌∙◌,
  Bool-cases, inl, inr,
}
use lavoro_l.Screen.{Screen, unsigned, get_buffer, set_buffer, columns, rows, draw_at}
use lavoro_l.Screen.Pixel.{IsScreen, get_buffer-set_buffer, set_buffer-IsScreen}

-- A screen of the same size, still with one cell for each pixel.
pub record IsKept (s t : Screen) : Type 0 where
  pub screen : IsScreen t
  pub width : t.w ≡ s.w
  pub height : t.h ≡ s.h
  pub mask : t.has_mask ≡ s.has_mask

module _ (image : Screen) (x y : ℕ) where
  abbrev put : ℕ → ℕ → Screen → Screen
  put i j = set_buffer (x + j) (y + i) (get_buffer image j i)

  columns-IsKept : (i n j : ℕ) (s : Screen) → IsScreen s → IsKept s (columns (put i) n j s)
  unfolding columns
  columns-IsKept i zero j s k = record { screen = k; width = refl; height = refl; mask = refl }
  columns-IsKept i (suc n) j s k =
      let (k', w', h', m') = set_buffer-IsScreen (x + j) (y + i) (get_buffer image j i) s k in
      let rest = columns-IsKept i n (j + 1) (put i j s) k' in
      record {
        screen = rest.screen;
        width = rest.width ∙ w';
        height = rest.height ∙ h';
        mask = rest.mask ∙ m';
      }

  rows-IsKept : (w n i : ℕ) (s : Screen) → IsScreen s → IsKept s (rows put w n i s)
  unfolding rows
  rows-IsKept w zero i s k = record { screen = k; width = refl; height = refl; mask = refl }
  rows-IsKept w (suc n) i s k =
      let one = columns-IsKept i w 0 s k in
      let rest = rows-IsKept w n (i + 1) (columns (put i) w 0 s) one.screen in
      record {
        screen = rest.screen;
        width = rest.width ∙ one.width;
        height = rest.height ∙ one.height;
        mask = rest.mask ∙ one.mask;
      }

  get_buffer-columns :
      (i n j a b : ℕ) (s : Screen)
      → IsScreen s
      → x + (j + n) ≤ s.w
      → a < s.w
      → b < s.h
      → get_buffer (columns (put i) n j s) a b ≡ (
          if (y + i == b) && (leb (x + j) a && ltb a (x + (j + n)))
          then unsigned (get_buffer image (a - x) i)
          else get_buffer s a b)
  unfolding columns
  get_buffer-columns i zero j a b s k fits pa pb = ground arith
  get_buffer-columns i (suc n) j a b s k fits pa pb =
      let (k', w', h', m') = set_buffer-IsScreen (x + j) (y + i) (get_buffer image j i) s k in
      let one =
        get_buffer-set_buffer (x + j) (y + i) (get_buffer image j i) a b s k (omega arith) pa pb in
      let rest =
        get_buffer-columns i n (j + 1) a b (put i j s) k' (omega arith) (omega arith)
          (omega arith) in
      rest ∙ elim (Bool-cases (x + j == a)) [
        | inl here ↦
            let diff : a - x ≡ j = ground arith in
            let pixel = ap (λ t. get_buffer image t i) diff in ground (arith, one, pixel)
        | inr there ↦ ground (arith, one)
      ]

  get_buffer-rows :
      (w n i a b : ℕ) (s : Screen)
      → IsScreen s
      → x + w ≤ s.w
      → a < s.w
      → b < s.h
      → get_buffer (rows put w n i s) a b ≡ (
          if (leb (y + i) b && ltb b (y + (i + n))) && (leb x a && ltb a (x + w))
          then unsigned (get_buffer image (a - x) (b - y))
          else get_buffer s a b)
  unfolding rows
  get_buffer-rows w zero i a b s k fits pa pb = ground arith
  get_buffer-rows w (suc n) i a b s k fits pa pb =
      let kept = columns-IsKept i w 0 s k in
      let sw = kept.width in
      let sh = kept.height in
      let one = get_buffer-columns i w 0 a b s k (omega arith) pa pb in
      let rest =
        get_buffer-rows w n (i + 1) a b (columns (put i) w 0 s) kept.screen (omega arith)
          (omega arith) (omega arith) in
      rest ∙ elim (Bool-cases (y + i == b)) [
        | inl here ↦
            let diff : b - y ≡ i = ground arith in
            let pixel = ap (λ t. get_buffer image (a - x) t) diff in ground (arith, one, pixel)
        | inr there ↦ ground (arith, one)
      ]

-- Drawing an image that fits between the columns of the screen puts each of its pixels at its place,
-- changes no other pixel and keeps the screen's size; what would fall below the last row is left
-- out.
pub get_buffer-draw_at :
    (image : Screen) (x y a b : ℕ) (s : Screen)
    → IsScreen s
    → x + image.w ≤ s.w
    → a < s.w
    → b < s.h
    → IsKept s (draw_at image x y s)
      × (get_buffer (draw_at image x y s) a b ≡ (
          if (leb y b && ltb b (y + image.h)) && (leb x a && ltb a (x + image.w))
          then unsigned (get_buffer image (a - x) (b - y))
          else get_buffer s a b))
unfolding draw_at
get_buffer-draw_at image x y a b s k fits pa pb = (
  rows-IsKept image x y image.w image.h 0 s k,
  get_buffer-rows image x y image.w image.h 0 a b s k fits pa pb ∙ ground arith,
)
