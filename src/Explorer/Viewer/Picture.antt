-- ===== src/Explorer/Viewer/Picture.antt =====
-- The picture of the viewer.
use native.Mathlib.Nat.{div-mul-le_self, le-div_iff_mul-le}
use lavoro_l.Base.{
  ◌⊎◌, ℕ, zero, suc, ◌+◌, ◌-◌, ◌*◌, ◌/◌, ◌≤◌, ◌<◌, ◌≡◌, refl, not, ◌||◌, ◌&&◌, ◌==◌, if◌then◌else◌,
  ltb, leb, arith, Bool-cases, inl, inr, ap, ◌∙◌,
}
use lavoro_l.Reader.Kept.{either}
use lavoro_l.Screen.{
  Screen, unsigned, get_buffer, set_buffer, columns, rows, scaled, scale, clear_pixel, copy_pixel,
  new_screen, fill,
}
use lavoro_l.Screen.Pixel.{IsScreen}
use lavoro_l.Screen.Fill.{get_buffer-fill, shape-fill}
use lavoro_l.Screen.Scale.{get_buffer-scale_100}
use lavoro_l.Screen.Draw.{get_buffer-draw_at}
use lavoro_l.Explorer.Viewer.{limit, fit, background, show_picture}

limit_le : (viewer bitmap ratio : ℕ) → limit viewer bitmap ratio ≤ ratio
limit_le viewer bitmap ratio = ground arith

-- Any ratio up to the limit makes the side fit.
scaled-limit :
    (viewer bitmap ratio k : ℕ)
    → ratio ≤ 100
    → k ≤ limit viewer bitmap ratio
    → scaled k bitmap ≤ viewer
scaled-limit viewer bitmap ratio k small l = elim (Bool-cases (ltb viewer bitmap)) [
  | inl longer ↦
      let q : ℕ = viewer * 100 / bitmap in
      let low : k ≤ q = ground arith in
      let whole = div-mul-le_self (viewer * 100) bitmap in
      let more : bitmap * k ≤ q * bitmap = grind arith in omega arith
  | inr shorter ↦
      let low : k ≤ 100 = ground arith in
      let side : bitmap ≤ viewer = ground arith in
      let more : bitmap * k ≤ viewer * 100 = grind arith in omega arith
]

-- What `Scale` gives has the scaled size.
module _ {A : Type 0} (field : Screen → A) where
  columns-field :
      (put : ℕ → Screen → Screen) (keeps : (j : ℕ) (t : Screen) → field (put j t) ≡ field t)
      (n j : ℕ) (s : Screen)
      → field (columns put n j s) ≡ field s
  unfolding columns
  columns-field put keeps zero j s = refl
  columns-field put keeps (suc n) j s = columns-field put keeps n (j + 1) (put j s) ∙ keeps j s

  rows-field :
      (put : ℕ → ℕ → Screen → Screen) (keeps : (i j : ℕ) (t : Screen) → field (put i j t) ≡ field t)
      (w n i : ℕ) (s : Screen)
      → field (rows put w n i s) ≡ field s
  unfolding rows
  rows-field put keeps w zero i s = refl
  rows-field put keeps w (suc n) i s =
      rows-field put keeps w n (i + 1) (columns (put i) w 0 s)
      ∙ columns-field (put i) (keeps i) w 0 s

abbrev size : Screen → ℕ × ℕ
size s = (s.w, s.h)

size-set_buffer : (x y v : ℕ) (s : Screen) → size (set_buffer x y v s) ≡ size s
unfolding set_buffer
size-set_buffer x y v s = either size (ltb (y * s.w + x) (s.w * s.h)) refl refl

size-clear_pixel : (s : Screen) (k i j : ℕ) (t : Screen) → size (clear_pixel s k i j t) ≡ size t
unfolding clear_pixel
size-clear_pixel s k i j t = either size t.has_mask (size-set_buffer _ _ _ t) refl

size-copy_pixel : (s : Screen) (k i j : ℕ) (t : Screen) → size (copy_pixel s k i j t) ≡ size t
unfolding copy_pixel
size-copy_pixel s k i j t =
    either size (not (get_buffer s j i == s.empty_color) || not s.has_mask)
      (size-set_buffer _ _ _ t) refl

size-scale : (k : ℕ) (s : Screen) → size (scale k s) ≡ (scaled k s.w, scaled k s.h)
unfolding scale new_screen
size-scale k s =
    rows-field size (copy_pixel s k) (size-copy_pixel s k) s.w s.h 0 _
    ∙ rows-field size (clear_pixel s k) (size-clear_pixel s k) s.w s.h 0 _

-- The picture of the viewer is no wider and no higher than the viewer.
pub fit-bounds :
    (viewer bitmap : Screen)
    → ((scale (fit viewer bitmap) bitmap).w ≤ viewer.w)
      × ((scale (fit viewer bitmap) bitmap).h ≤ viewer.h)
unfolding fit
fit-bounds viewer bitmap =
    let k : ℕ = fit viewer bitmap in
    let one : ℕ = limit viewer.w bitmap.w 100 in
    let low = limit_le viewer.h bitmap.h one in
    let small = limit_le viewer.w bitmap.w 100 in
    let same = size-scale k bitmap in
    let wide = scaled-limit viewer.w bitmap.w 100 k (omega arith) (omega arith) in
    let high = scaled-limit viewer.h bitmap.h one k (omega arith) (omega arith) in
    let w' : (scale k bitmap).w ≡ scaled k bitmap.w = ap (λ (t : ℕ × ℕ). t.0) same in
    let h' : (scale k bitmap).h ≡ scaled k bitmap.h = ap (λ (t : ℕ × ℕ). t.1) same in
    (rw w' wide, rw h' high)

-- A ratio at which a side fits is no more than the limit.
limit-greatest :
    (viewer bitmap ratio k : ℕ)
    → k ≤ ratio
    → bitmap * k ≤ viewer * 100
    → k ≤ limit viewer bitmap ratio
limit-greatest viewer bitmap ratio k small side = elim (Bool-cases (ltb viewer bitmap)) [
  | inl longer ↦
      let some_side : 0 < bitmap = ground arith in
      let fits_in : k ≤ viewer * 100 / bitmap = (le-div_iff_mul-le some_side).1 (grind arith) in
      ground arith
  | inr shorter ↦ ground arith
]

-- No greater percentage makes both sides fit.
fit-greatest :
    (viewer bitmap : Screen) (k : ℕ)
    → k ≤ 100
    → bitmap.w * k ≤ viewer.w * 100
    → bitmap.h * k ≤ viewer.h * 100
    → k ≤ fit viewer bitmap
unfolding fit
fit-greatest viewer bitmap k small wide high =
    limit-greatest viewer.h bitmap.h (limit viewer.w bitmap.w 100) k
      (limit-greatest viewer.w bitmap.w 100 k small wide) high

-- What fits is not scaled.
fit-whole :
    (viewer bitmap : Screen) → bitmap.w ≤ viewer.w → bitmap.h ≤ viewer.h → fit viewer bitmap ≡ 100
unfolding fit
fit-whole viewer bitmap wide high = ground arith

as_it_is :
    (viewer bitmap : Screen) (j i : ℕ)
    → IsScreen bitmap
    → j < bitmap.w
    → i < bitmap.h
    → (get_buffer (scale (fit viewer bitmap) bitmap) j i ≡ unsigned (get_buffer bitmap j i))
      ⊎ ((viewer.w < bitmap.w) ⊎ (viewer.h < bitmap.h))
as_it_is viewer bitmap j i kb pj pi = elim (Bool-cases (ltb viewer.w bitmap.w)) [
  | inl wider ↦ inr (inl (ground arith))
  | inr in_width ↦ elim (Bool-cases (ltb viewer.h bitmap.h)) [
    | inl higher ↦ inr (inr (ground arith))
    | inr in_height ↦
        let whole = fit-whole viewer bitmap (ground arith) (ground arith) in
        inl (rw whole (get_buffer-scale_100 bitmap kb j i pj pi).2)
  ]
]

-- The viewer shows a picture of at least one pixel, in the middle and inside, and the background around it. The picture
-- is scaled by the greatest percentage up to 100 at which both sides fit, which is 0 for a side more
-- than 100 times as long; a picture that fits is shown as it is, pixel for pixel.
pub show_picture_lem :
    (viewer bitmap : Screen) (a b j i k : ℕ)
    → IsScreen viewer
    → IsScreen bitmap
    → a < viewer.w
    → b < viewer.h
    → j < bitmap.w
    → i < bitmap.h
    → k ≤ 100
    → bitmap.w * k ≤ viewer.w * 100
    → bitmap.h * k ≤ viewer.h * 100
    → (image : Screen) × (image ≡ scale (fit viewer bitmap) bitmap)
      × (image.w ≤ viewer.w)
      × (image.h ≤ viewer.h)
      × (k ≤ fit viewer bitmap)
      × ((get_buffer image j i ≡ unsigned (get_buffer bitmap j i))
          ⊎ ((viewer.w < bitmap.w) ⊎ (viewer.h < bitmap.h)))
      × (get_buffer (show_picture viewer bitmap) a b ≡ (
          let x : ℕ = (viewer.w - image.w) / 2 in
          let y : ℕ = (viewer.h - image.h) / 2 in
          if (leb y b && ltb b (y + image.h)) && (leb x a && ltb a (x + image.w))
          then unsigned (get_buffer image (a - x) (b - y))
          else background))
unfolding show_picture
show_picture_lem viewer bitmap a b j i k kv kb pa pb pj pi small wide_k high_k =
    let image : Screen = scale (fit viewer bitmap) bitmap in
    let (wide, high) = fit-bounds viewer bitmap in
    let (w', h') = shape-fill background viewer in
    let (k', pixel) = get_buffer-fill background a b viewer kv pa pb in
    let drawn =
      get_buffer-draw_at image ((viewer.w - image.w) / 2) ((viewer.h - image.h) / 2) a b
        (fill background viewer) k' (rw w' (omega arith)) (rw w' pa) (rw h' pb) in
    (
      image,
      refl,
      wide,
      high,
      fit-greatest viewer bitmap k small wide_k high_k,
      as_it_is viewer bitmap j i kb pj pi,
      drawn.1 ∙ rw pixel refl,
    )
