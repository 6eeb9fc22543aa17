-- ===== src/Examples/Pictures.antt =====
-- Small pictures.
use lavoro_l.Base.{ℕ, ◌≡◌, refl, true, false, List, [], ◌∷◌, arith}
use lavoro_l.Screen.{Screen, get_buffer, draw_at}
use lavoro_l.Screen.Draw.{IsKept, get_buffer-draw_at}

abbrev picture : ℕ → ℕ → List ℕ → Screen
picture w h pixels = record {
  x = 0;
  y = 0;
  w = w;
  h = h;
  empty_color = 0;
  has_mask = true;
  visible = false;
  buffer = pixels;
}

abbrev canvas : Screen
canvas = picture 3 2 (1 ∷ 2 ∷ 3 ∷ 4 ∷ 5 ∷ 6 ∷ [])

abbrev stamp : Screen
stamp = picture 1 2 (7 ∷ 8 ∷ [])

get_buffer-draw_at_example :
    IsKept canvas (draw_at stamp 1 1 canvas) × (get_buffer (draw_at stamp 1 1 canvas) 1 1 ≡ 7)
unfolding get_buffer
get_buffer-draw_at_example =
    get_buffer-draw_at stamp 1 1 1 1 canvas refl (omega arith) (omega arith) (omega arith)
