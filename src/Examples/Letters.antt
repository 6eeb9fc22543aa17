-- ===== src/Examples/Letters.antt =====
-- Lists of fonts, a font's file, and a picture cut into characters.
use lavoro_l.Base.{
  Option, ◌++◌, ℕ, ◌≤◌, ◌<◌, ◌≡◌, refl, Bool, false, ◌||◌, none, some, List, [], ◌∷◌, ◌==◌, arith,
}
use lavoro_l.Examples.Memory.{memory, file, opened, opened-IsFresh}
use lavoro_l.Reader.{Reader}
use lavoro_l.File.{read_buffer}
use lavoro_l.Screen.{Screen, get_buffer}
use lavoro_l.Font.{Font}
use lavoro_l.Font.Table.{
  NamedFont, Fonts, font_directory, load_fonts, get_font, last_font, font_name_hash, load_fonts_lem,
}
use lavoro_l.Font.Scan.{rect, pieces}
use lavoro_l.Font.Scan.Rectangle.{rect-bounds}
use lavoro_l.Font.Scan.Pieces.{ArePieces, pieces-ArePieces}

abbrev plain : Font
plain = record { trie = λ i. none; char_height = 0; empty_color = 0 }

-- The font's name is its path.
abbrev by_line : List ℕ → NamedFont
by_line line = record { name = font_directory ++ line; font = plain }

abbrev by_path : List ℕ → Option NamedFont
by_path path = some (record { name = path; font = plain })

-- The fonts A and B
abbrev list_bytes : List ℕ
list_bytes = 65 ∷ 13 ∷ 10 ∷ 66 ∷ 13 ∷ 10 ∷ []

load_fonts_lem_example :
    (fonts : Fonts) × (r : Reader (List ℕ)) × (load_fonts by_path
        (read_buffer memory)
        0
        7
        3
        (opened list_bytes)
      ≡ some (some fonts, r))
    × (get_font fonts (65 ∷ [])
        ≡ last_font by_path by_line (font_name_hash (65 ∷ [])) ((65 ∷ []) ∷ (66 ∷ []) ∷ []))
load_fonts_lem_example =
    load_fonts_lem by_path file 0 7 3 by_line ((65 ∷ []) ∷ (66 ∷ []) ∷ []) (65 ∷ [])
      (opened-IsFresh list_bytes) refl
      (
        (λ e. omega arith, tt),
        (λ e. omega arith, tt),
        ((λ e. omega arith, tt), (λ e. omega arith, tt), tt),
      )
      (omega arith, refl, (omega arith, refl, tt)) (omega arith) (omega arith)

-- One row of three pixels; the second is drawn.
abbrev dash : Screen
dash = record {
  x = 0;
  y = 0;
  w = 3;
  h = 1;
  empty_color = 0;
  has_mask = false;
  visible = false;
  buffer = 9 ∷ 5 ∷ 9 ∷ [];
}

-- A font F with the characters x and y in the picture p.
abbrev font_bytes : List ℕ
font_bytes = 70 ∷ 13 ∷ 10 ∷ 112 ∷ 44 ∷ 120 ∷ 121 ∷ 13 ∷ 10 ∷ []

rect-bounds_example :
    ((rect dash).min_w ≤ 1)
    × (1 < (rect dash).max_w)
    × ((rect dash).min_h ≤ 0)
    × (0 < (rect dash).max_h)
unfolding get_buffer
rect-bounds_example = rect-bounds dash 1 0 (omega arith) (omega arith) refl

abbrev in_two : ℕ → Bool
in_two x = (x == 1) || (x == 4)

pieces-ArePieces_example : ArePieces in_two 0 6 0 (pieces in_two 0 6 (65 ∷ 66 ∷ []) 0)
pieces-ArePieces_example = pieces-ArePieces in_two 0 6 (65 ∷ 66 ∷ []) 0
