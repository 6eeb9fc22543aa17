-- ===== src/Screen.antt =====
-- `LScreen` of src/lscreen.hpp: a rectangle of pixels. A pixel is an `unsigned`, a number below
-- 2 ^ 32; sizes and positions are numbers, since every call of the program passes none below 0, and
-- their products stay below 2 ^ 31. A null `Buffer` is the empty list.
pub mod Pixel
pub mod Fill
pub mod Draw
pub mod Loops
pub mod Scale
use lavoro_l.Base.{
  [], ◌∷◌, ℕ, zero, suc, ◌+◌, ◌-◌, ◌*◌, ◌/◌, ◌%◌, ◌^◌, Bool, true, false, not, ◌||◌, List, [], ◌==◌,
  if◌then◌else◌, ltb, get_or, set, replicate,
}

-- The `unsigned` that -1 is converted to.
abbrev pub no_pixel : ℕ
no_pixel = 2 ^ 32 - 1

abbrev pub unsigned : ℕ → ℕ
unsigned v = v % 2 ^ 32

pub record Screen : Type 0 where
  pub x : ℕ
  pub y : ℕ
  pub w : ℕ
  pub h : ℕ
  pub empty_color : ℕ
  pub has_mask : Bool
  pub visible : Bool
  pub buffer : List ℕ

-- `LScreen::LScreen`: the loop that clears the buffer is `replicate`.
unfoldable pub new_screen : ℕ → ℕ → ℕ → ℕ → Screen
new_screen x y w h = record {
  x = x;
  y = y;
  w = w;
  h = h;
  empty_color = no_pixel;
  has_mask = false;
  visible = false;
  buffer = if w * h == 0 then [] else replicate (w * h) 0;
}

-- `LScreen::IsVisible`, `LScreen::Hide`, `LScreen::Show`
unfoldable pub is_visible : Screen → Bool
is_visible s = s.visible

unfoldable pub hide : Screen → Screen
hide s = record s { visible = false }

unfoldable pub show : Screen → Screen
show s = record s { visible = false }

-- `LScreen::GetBuffer`
unfoldable pub get_buffer : Screen → ℕ → ℕ → ℕ
get_buffer s x y =
    if ltb (y * s.w + x) (s.w * s.h) then get_or s.buffer (y * s.w + x) no_pixel else no_pixel

-- A store through a pointer: beyond the end it reaches the memory behind the cells, and the list grows.
unfoldable pub store : List ℕ → ℕ → ℕ → List ℕ
store [] zero v = v ∷ []
store [] (suc n) v = 0 ∷ store [] n v
store (c ∷ cells) zero v = v ∷ cells
store (c ∷ cells) (suc n) v = c ∷ store cells n v

-- `LScreen::SetBuffer`
unfoldable pub set_buffer : ℕ → ℕ → ℕ → Screen → Screen
set_buffer x y v s =
    if ltb (y * s.w + x) (s.w * s.h)
    then record s { buffer = store s.buffer (y * s.w + x) (unsigned v) }
    else s

-- The loop of `LScreen::Fill`: the rounds left, and `i`.
unfoldable pub fill_loop : ℕ → ℕ → ℕ → Screen → Screen
fill_loop color zero i s = s
fill_loop color (suc n) i s =
    fill_loop color n (i + 1) (record s { buffer = set s.buffer i (unsigned color) })

unfoldable pub fill : ℕ → Screen → Screen
unfolding fill_loop
fill color s = fill_loop color (s.w * s.h) 0 s

-- Two nested loops over the pixels of a screen: `put i j` is the body at row `i` and column `j`.
-- The first argument is the rounds left.
unfoldable pub columns : (ℕ → Screen → Screen) → ℕ → ℕ → Screen → Screen
columns put zero j s = s
columns put (suc n) j s = columns put n (j + 1) (put j s)

unfoldable pub rows : (ℕ → ℕ → Screen → Screen) → ℕ → ℕ → ℕ → Screen → Screen
rows put w zero i s = s
rows put w (suc n) i s = rows put w n (i + 1) (columns (put i) w 0 s)

-- `LScreen::Draw` at a position, and at the drawn screen's own.
unfoldable pub draw_at : Screen → ℕ → ℕ → Screen → Screen
draw_at image x y s =
    rows (λ i j. set_buffer (x + j) (y + i) (get_buffer image j i)) image.w image.h 0 s

unfoldable pub draw : Screen → Screen → Screen
unfolding draw_at
draw image s = draw_at image image.x image.y s

abbrev pub scaled : ℕ → ℕ → ℕ
scaled ratio n = (n * ratio + 100 - 1) / 100

-- The bodies of the two pairs of loops of `LScreen::Scale`.
unfoldable pub clear_pixel : Screen → ℕ → ℕ → ℕ → Screen → Screen
clear_pixel s ratio i j result =
    if result.has_mask
    then set_buffer (scaled ratio j) (scaled ratio i) s.empty_color result
    else result

unfoldable pub copy_pixel : Screen → ℕ → ℕ → ℕ → Screen → Screen
copy_pixel s ratio i j result =
    if not (get_buffer s j i == s.empty_color) || not s.has_mask
    then set_buffer (scaled ratio j) (scaled ratio i) (get_buffer s j i) result
    else result

-- `LScreen::Scale`
unfoldable pub scale : ℕ → Screen → Screen
scale ratio s =
    let blank : Screen = record (new_screen s.x s.y (scaled ratio s.w) (scaled ratio s.h)) {
      has_mask = s.has_mask;
      empty_color = s.empty_color;
    } in
    rows (copy_pixel s ratio) s.w s.h 0 (rows (clear_pixel s ratio) s.w s.h 0 blank)
