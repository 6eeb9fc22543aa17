-- ===== src/Examples/Views.antt =====
-- The viewer, the boxes of filldemo, and the two modes.
use lavoro_l.Base.{
  ℕ, ◌+◌, ◌-◌, ◌*◌, ◌/◌, ◌≤◌, ◌<◌, ◌⊎◌, ◌≡◌, refl, false, [], ◌∷◌, ◌&&◌, if◌then◌else◌, ltb, leb,
  arith, replicate,
}
use lavoro_l.Examples.Memory.{memory, file, opened, opened-IsFresh}
use lavoro_l.File.{read_buffer}
use lavoro_l.Screen.{Screen, get_buffer, scale, unsigned}
use lavoro_l.Explorer.Viewer.{content, fit, show_picture, background}
use lavoro_l.Explorer.Viewer.Content.{content_lem}
use lavoro_l.Explorer.Viewer.Picture.{show_picture_lem}

content_lem_example : content (read_buffer memory) (opened (72 ∷ 105 ∷ [])) ≡ 72 ∷ 105 ∷ []
content_lem_example = content_lem file (opened-IsFresh (72 ∷ 105 ∷ []))

abbrev sheet : ℕ → ℕ → ℕ → Screen
sheet w h color = record {
  x = 0;
  y = 0;
  w = w;
  h = h;
  empty_color = 0;
  has_mask = false;
  visible = false;
  buffer = replicate (w * h) color;
}

show_picture_lem_example :
    (image : Screen) × (image ≡ scale (fit (sheet 2 2 0) (sheet 4 1 7)) (sheet 4 1 7))
    × (image.w ≤ 2)
    × (image.h ≤ 2)
    × (50 ≤ fit (sheet 2 2 0) (sheet 4 1 7))
    × ((get_buffer image 3 0 ≡ unsigned (get_buffer (sheet 4 1 7) 3 0)) ⊎ ((2 < 4) ⊎ (2 < 1)))
    × (get_buffer (show_picture (sheet 2 2 0) (sheet 4 1 7)) 1 1 ≡ (
        let x : ℕ = (2 - image.w) / 2 in
        let y : ℕ = (2 - image.h) / 2 in
        if (leb y 1 && ltb 1 (y + image.h)) && (leb x 1 && ltb 1 (x + image.w))
        then unsigned (get_buffer image (1 - x) (1 - y))
        else background))
show_picture_lem_example =
    show_picture_lem (sheet 2 2 0) (sheet 4 1 7) 1 1 3 0 50 refl refl (omega arith) (omega arith)
      (omega arith) (omega arith) (omega arith) (omega arith) (omega arith)
