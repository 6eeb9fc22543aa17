-- ===== src/Examples/Fonts.antt =====
-- A font with one character.
use lavoro_l.Base.{◌≡◌, true, false, none, some, [], ◌∷◌, arith}
use lavoro_l.Screen.{Screen}
use lavoro_l.Font.{Font, insert, get_char_bitmap}
use lavoro_l.Font.Lookup.{get_char_bitmap-insert}

abbrev no_characters : Font
no_characters = record { trie = λ i. none; char_height = 0; empty_color = 255 }

abbrev dot : Screen
dot = record {
  x = 0;
  y = 0;
  w = 1;
  h = 1;
  empty_color = 255;
  has_mask = true;
  visible = false;
  buffer = 7 ∷ [];
}

abbrev canvas : Screen
canvas = record {
  x = 0;
  y = 0;
  w = 2;
  h = 2;
  empty_color = 255;
  has_mask = false;
  visible = false;
  buffer = 0 ∷ 0 ∷ 0 ∷ 0 ∷ [];
}

get_char_bitmap-insert_example : get_char_bitmap 65 (insert 65 dot no_characters) ≡ some dot
get_char_bitmap-insert_example =
    get_char_bitmap-insert 65 65 dot no_characters (omega arith) (omega arith)

abbrev one_character : Font
unfolding insert
one_character = insert 65 dot no_characters
