-- ===== src/Screen/Scale.antt =====
-- `Scale`: where a pixel goes, and the ratio 100.
use lavoro_l.Base.{
  ℕ, ◌+◌, ◌*◌, ◌<◌, ◌≤◌, ◌≡◌, refl, Bool, true, false, not, ◌||◌, ◌&&◌, ◌==◌, if◌then◌else◌, ltb,
  leb, arith, ◌∙◌, Bool-cases, inl, inr,
}
use lavoro_l.Screen.{
  Screen, unsigned, get_buffer, set_buffer, rows, scaled, scale, clear_pixel, copy_pixel,
  new_screen,
}
use lavoro_l.Screen.Pixel.{
  IsScreen, get_buffer-set_buffer, set_buffer-IsScreen, new_screen-IsScreen,
}
use lavoro_l.Screen.Draw.{IsKept}
use lavoro_l.Screen.Loops.{get_buffer-rows}

-- A pixel of a screen that is not shrunk goes to a column inside the scaled screen.
pub scaled_lt : (ratio j w : ℕ) → 100 ≤ ratio → j < w → scaled ratio j < scaled ratio w
scaled_lt ratio j w r h = let m : (j + 1) * ratio ≤ w * ratio = grind arith in omega (arith, m)

scaled_100 : (n : ℕ) → scaled 100 n ≡ n
scaled_100 n = omega arith

clear_pixel-masked :
    (s : Screen) (ratio i j : ℕ) (t : Screen)
    → t.has_mask ≡ true
    → clear_pixel s ratio i j t ≡ set_buffer (scaled ratio j) (scaled ratio i) s.empty_color t
unfolding clear_pixel
clear_pixel-masked s ratio i j t e = ground arith

clear_pixel-plain :
    (s : Screen) (ratio i j : ℕ) (t : Screen) → t.has_mask ≡ false → clear_pixel s ratio i j t ≡ t
unfolding clear_pixel
clear_pixel-plain s ratio i j t e = ground arith

-- The pixels that are copied.
abbrev shows : Screen → ℕ → ℕ → Bool
shows s j i = not (get_buffer s j i == s.empty_color) || not s.has_mask

copy_pixel-shown :
    (s : Screen) (ratio i j : ℕ) (t : Screen)
    → shows s j i ≡ true
    → copy_pixel s ratio i j t ≡ set_buffer (scaled ratio j) (scaled ratio i) (get_buffer s j i) t
unfolding copy_pixel
copy_pixel-shown s ratio i j t e = rw (e, copy_pixel) refl

copy_pixel-hidden :
    (s : Screen) (ratio i j : ℕ) (t : Screen) → shows s j i ≡ false → copy_pixel s ratio i j t ≡ t
unfolding copy_pixel
copy_pixel-hidden s ratio i j t e = rw (e, copy_pixel) refl

module _ (s : Screen) (k : IsScreen s) (a b : ℕ) (pa : a < s.w) (pb : b < s.h) where
  set-local :
      (v i j : ℕ) (t : Screen)
      → IsScreen t
      → t.w ≡ s.w
      → t.h ≡ s.h
      → j < s.w
      → IsKept t (set_buffer (scaled 100 j) (scaled 100 i) v t)
        × (get_buffer (set_buffer (scaled 100 j) (scaled 100 i) v t) a b
            ≡ (if (j == a) && (i == b) then unsigned v else get_buffer t a b))
  set-local v i j t kt ew eh jw =
      rw (scaled_100 j, scaled_100 i)
        (let (k', w', h', m') = set_buffer-IsScreen j i v t kt in
          (
            record { screen = k'; width = w'; height = h'; mask = m' },
            get_buffer-set_buffer j i v a b t kt (omega arith) (omega arith) (omega arith),
          ))

  clear-local :
      (i j : ℕ) (t : Screen)
      → IsScreen t
      → t.w ≡ s.w
      → t.h ≡ s.h
      → t.has_mask ≡ s.has_mask
      → j < s.w
      → IsKept t (clear_pixel s 100 i j t)
        × (get_buffer (clear_pixel s 100 i j t) a b ≡ (
            if (j == a) && (i == b)
            then (if s.has_mask then unsigned s.empty_color else get_buffer t a b)
            else get_buffer t a b))
  clear-local i j t kt ew eh em jw = elim (Bool-cases s.has_mask) [
    | inl masked ↦
        let (kept, pixel) = set-local s.empty_color i j t kt ew eh jw in
        rw (clear_pixel-masked s 100 i j t (em ∙ masked)) (kept, ground (arith, pixel))
    | inr plain ↦
        rw (clear_pixel-plain s 100 i j t (em ∙ plain))
          (record { screen = kt; width = refl; height = refl; mask = refl }, ground arith)
  ]

  copy-local :
      (i j : ℕ) (t : Screen)
      → IsScreen t
      → t.w ≡ s.w
      → t.h ≡ s.h
      → t.has_mask ≡ s.has_mask
      → j < s.w
      → IsKept t (copy_pixel s 100 i j t)
        × (get_buffer (copy_pixel s 100 i j t) a b ≡ (
            if (j == a) && (i == b)
            then (if shows s a b then unsigned (get_buffer s a b) else get_buffer t a b)
            else get_buffer t a b))
  copy-local i j t kt ew eh em jw = elim (Bool-cases (shows s j i)) [
    | inl here ↦
        let (kept, pixel) = set-local (get_buffer s j i) i j t kt ew eh jw in
        rw (copy_pixel-shown s 100 i j t here) (kept, at_pixel here pixel)
    | inr hidden ↦
        rw (copy_pixel-hidden s 100 i j t hidden)
          (record { screen = kt; width = refl; height = refl; mask = refl }, off_pixel hidden)
  ]
    where
      at_pixel :
          {v : ℕ}
          → shows s j i ≡ true
          → v ≡ (if (j == a) && (i == b) then unsigned (get_buffer s j i) else get_buffer t a b)
          → v ≡ (
              if (j == a) && (i == b)
              then (if shows s a b then unsigned (get_buffer s a b) else get_buffer t a b)
              else get_buffer t a b)
      at_pixel here e = elim (Bool-cases ((j == a) && (i == b))) [
        | inl same ↦
            let col : j ≡ a = ground arith in
            let row : i ≡ b = ground arith in
            let here' : shows s a b ≡ true = rw (col, row) at here in
            let e' = rw same at e in rw (same, here') (rw (col, row) at e')
        | inr other ↦ rw other (rw other at e)
      ]

      off_pixel :
          shows s j i ≡ false
          → get_buffer t a b ≡ (
              if (j == a) && (i == b)
              then (if shows s a b then unsigned (get_buffer s a b) else get_buffer t a b)
              else get_buffer t a b)
      off_pixel hidden = elim (Bool-cases ((j == a) && (i == b))) [
        | inl same ↦
            let col : j ≡ a = ground arith in
            let row : i ≡ b = ground arith in
            let hidden' : shows s a b ≡ false = rw (col, row) at hidden in rw (same, hidden') refl
        | inr other ↦ rw other refl
      ]

  -- The screen that `Scale(100)` starts from.
  abbrev blank : Screen
  blank = record (new_screen s.x s.y (scaled 100 s.w) (scaled 100 s.h)) {
    has_mask = s.has_mask;
    empty_color = s.empty_color;
  }

  blank-IsKept : IsScreen blank × (blank.w ≡ s.w) × (blank.h ≡ s.h)
  unfolding new_screen
  blank-IsKept = (
    new_screen-IsScreen s.x s.y (scaled 100 s.w) (scaled 100 s.h),
    scaled_100 s.w,
    scaled_100 s.h,
  )

  -- What a pixel of the result holds: a masked pixel was cleared first.
  masked_pixel :
      (v z u : ℕ)
      → z ≡ (if s.has_mask then unsigned s.empty_color else u)
      → v ≡ (if shows s a b then unsigned (get_buffer s a b) else z)
      → v ≡ unsigned (get_buffer s a b)
  masked_pixel v z u e f = elim (Bool-cases (shows s a b)) [
    | inl shown ↦ f ∙ rw shown refl
    | inr hidden ↦
        let masked : s.has_mask ≡ true = ground arith in
        let color : get_buffer s a b ≡ s.empty_color = ground arith in
        f ∙ (rw hidden refl ∙ (e ∙ ground (arith, masked, color)))
  ]

  -- `Scale(100)` is a screen of the same size with the same pixels, masked or not.
  pub get_buffer-scale_100 :
      ((scale 100 s).w ≡ s.w)
      × ((scale 100 s).h ≡ s.h)
      × (get_buffer (scale 100 s) a b ≡ unsigned (get_buffer s a b))
  unfolding scale
  get_buffer-scale_100 =
      let (kb, wb, hb) = blank-IsKept in
      let (kept, cleared) =
        get_buffer-rows (clear_pixel s 100) s.w s.h a b s.has_mask
          (λ v. if s.has_mask then unsigned s.empty_color else v) clear-local s.h 0 blank kb wb hb
          refl pa in
      let (kept', copied) =
        get_buffer-rows (copy_pixel s 100) s.w s.h a b s.has_mask
          (λ v. if shows s a b then unsigned (get_buffer s a b) else v) copy-local s.h 0
          (rows (clear_pixel s 100) s.w s.h 0 blank) kept.screen (kept.width ∙ wb)
          (kept.height ∙ hb) kept.mask pa in
      let inside : (leb 0 b && ltb b (0 + s.h)) ≡ true = ground arith in
      (
        kept'.width ∙ kept.width ∙ wb,
        kept'.height ∙ kept.height ∙ hb,
        masked_pixel (get_buffer (scale 100 s) a b)
            (get_buffer (rows (clear_pixel s 100) s.w s.h 0 blank) a b) (get_buffer blank a b)
            (rw inside at cleared) (rw inside at copied),
      )
