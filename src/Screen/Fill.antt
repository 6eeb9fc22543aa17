-- ===== src/Screen/Fill.antt =====
-- `Fill` and the constructor: every pixel has the colour.
use lavoro_l.Base.{
  ℕ, zero, suc, ◌+◌, ◌*◌, ◌<◌, ◌≡◌, refl, ◌&&◌, ◌==◌, if◌then◌else◌, ltb, leb, arith, length,
  get_or, set, get_or-set_self, get_or-set_ne, length-set, ◌∙◌, Bool-cases, inl, inr,
}
use lavoro_l.Screen.{Screen, no_pixel, unsigned, get_buffer, fill_loop, fill}
use lavoro_l.Screen.Pixel.{IsScreen, index_in_range}

get_or-fill_loop :
    (color n i k : ℕ) (s : Screen)
    → k < length s.buffer
    → get_or (fill_loop color n i s).buffer k no_pixel
      ≡ (if leb i k && ltb k (i + n) then unsigned color else get_or s.buffer k no_pixel)
unfolding fill_loop
get_or-fill_loop color zero i k s h = ground arith
get_or-fill_loop color (suc n) i k s h =
    let s' : Screen = record s { buffer = set s.buffer i (unsigned color) } in
    let size = length-set s.buffer i (unsigned color) in
    let rest = get_or-fill_loop color n (i + 1) k s' (omega arith) in
    elim (Bool-cases (i == k)) [
      | inl here ↦
          let e : i ≡ k = ground arith in
          let self = get_or-set_self s.buffer i (unsigned color) no_pixel (rw e h) in
          rest ∙ rw (← e) (ground (arith, self))
      | inr there ↦
          let spared = get_or-set_ne s.buffer i k (unsigned color) no_pixel (ground arith) in
          rest ∙ ground (arith, spared)
    ]

shape-fill_loop :
    (color n i : ℕ) (s : Screen)
    → ((fill_loop color n i s).w ≡ s.w)
      × ((fill_loop color n i s).h ≡ s.h)
      × (length (fill_loop color n i s).buffer ≡ length s.buffer)
unfolding fill_loop
shape-fill_loop color zero i s = (refl, refl, refl)
shape-fill_loop color (suc n) i s =
    let rest =
      shape-fill_loop color n (i + 1) (record s { buffer = set s.buffer i (unsigned color) }) in
    (rest.0, rest.1, rest.2 ∙ length-set s.buffer i (unsigned color))

pub shape-fill : (color : ℕ) (s : Screen) → ((fill color s).w ≡ s.w) × ((fill color s).h ≡ s.h)
unfolding fill
shape-fill color s = let shape = shape-fill_loop color (s.w * s.h) 0 s in (shape.0, shape.1)

-- `Fill` gives every pixel of the screen the colour, and keeps the screen's size.
pub get_buffer-fill :
    (color a b : ℕ) (s : Screen)
    → IsScreen s
    → a < s.w
    → b < s.h
    → IsScreen (fill color s) × (get_buffer (fill color s) a b ≡ unsigned color)
unfolding fill get_buffer
get_buffer-fill color a b s i pa pb =
    let inside = index_in_range a b s.w s.h pa pb in
    let shape = shape-fill_loop color (s.w * s.h) 0 s in
    let cell = get_or-fill_loop color (s.w * s.h) 0 (b * s.w + a) s (rw i inside) in
    (rw (shape.0, shape.1) (shape.2 ∙ i), rw (shape.0, shape.1) (ground (arith, inside, cell)))
