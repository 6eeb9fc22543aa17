-- ===== src/Font/Scan.antt =====
-- `LFont::LoadBitmap` of src/lfont.hpp, once the picture is read: the smallest rectangle with all that is
-- drawn, its columns cut into one piece for each character, and the pieces' bitmaps.
pub mod Rectangle
pub mod Pieces
use lavoro_l.Base.{
  ℕ, zero, suc, ◌+◌, ◌-◌, ◌/◌, Bool, true, false, not, ◌&&◌, ◌||◌, Option, none, some, List, [],
  ◌∷◌, ◌==◌, if◌then◌else◌, ltb, length,
}
use lavoro_l.Screen.{Screen, get_buffer, set_buffer, new_screen, rows}
use lavoro_l.Font.{Font, insert}

-- `minWidth`, `maxWidth`, `minHeight`, `maxHeight`
pub record Rect : Type 0 where
  pub min_w : ℕ
  pub max_w : ℕ
  pub min_h : ℕ
  pub max_h : ℕ

-- `j - startscan` columns from `startscan` on, for a character.
pub record Piece : Type 0 where
  pub char : ℕ
  pub start : ℕ
  pub stop : ℕ

abbrev pub min : ℕ → ℕ → ℕ
min a b = if ltb a b then a else b

abbrev pub max : ℕ → ℕ → ℕ
max a b = if ltb b a then a else b

module _ (bitmap : Screen) where
  abbrev pub paper : ℕ
  paper = get_buffer bitmap 0 0

  -- The pixel is not of the colour of the first one.
  abbrev pub is_drawn : ℕ → ℕ → Bool
  is_drawn x y = not (get_buffer bitmap x y == paper)

  -- The body of the two loops over the picture, at row `i` and column `j`.
  abbrev pub widen : ℕ → ℕ → Rect → Rect
  widen i j b =
      if is_drawn j i
      then record {
        min_w = min b.min_w j;
        max_w = max b.max_w j;
        min_h = min b.min_h i;
        max_h = max b.max_h i;
      }
      else b

  -- The rounds left come first.
  unfoldable pub widen_row : ℕ → ℕ → ℕ → Rect → Rect
  widen_row zero i j b = b
  widen_row (suc n) i j b = widen_row n i (j + 1) (widen i j b)

  unfoldable pub widen_rows : ℕ → ℕ → Rect → Rect
  widen_rows zero i b = b
  widen_rows (suc n) i b = widen_rows n (i + 1) (widen_row bitmap.w i 0 b)

  unfoldable pub rect : Rect
  rect =
      let b : Rect =
        widen_rows bitmap.h 0
          (record { min_w = bitmap.w; max_w = 0; min_h = bitmap.h; max_h = 0 }) in
      record b { max_w = b.max_w + 1; max_h = b.max_h + 1 }

  -- `pscanned`: something is drawn in the column, from row `i` on.
  unfoldable pub ink_from : ℕ → ℕ → ℕ → Bool
  ink_from zero x i = false
  ink_from (suc n) x i = is_drawn x i || ink_from n x (i + 1)

  abbrev pub ink : Rect → ℕ → Bool
  ink b x = ink_from (b.max_h - b.min_h) x b.min_h

-- `startscan`, from `~0U` on
abbrev pub begin_at : Bool → ℕ → Option ℕ → Option ℕ
begin_at inked j none = if inked then some j else none
begin_at inked j (some s) = some s

abbrev pub beyond : ℕ → ℕ → Option ℕ → Bool
beyond min_char j none = false
beyond min_char j (some s) = ltb min_char (j - s)

abbrev pub add_piece : ℕ → Option ℕ × ℕ → List Piece → List Piece
add_piece c (none, stop) ps = ps
add_piece c (some s, stop) ps = record { char = c; start = s; stop = stop } ∷ ps

module _ (inked : ℕ → Bool) (min_char : ℕ) where
  -- The inner loop over `j`: the rounds left, `j`, `startscan` and `scanned`. It gives `startscan` and
  -- `j`.
  unfoldable pub scan : ℕ → ℕ → Option ℕ → Bool → Option ℕ × ℕ
  scan zero j start scanned = (start, j)
  scan (suc n) j start scanned =
      let start' : Option ℕ = begin_at (inked j) j start in
      let over : Bool = beyond min_char j start' in
      let scanned' : Bool = if over then scanned && inked j else scanned in
      let rest : Option ℕ × ℕ = scan n (j + 1) start' scanned' in
      if over && not scanned' then (start', j) else rest

  -- The outer loop over `j` and the characters.
  unfoldable pub pieces : ℕ → List ℕ → ℕ → List Piece
  pieces max_w [] j = []
  pieces max_w (c ∷ chars) j =
      let out : Option ℕ × ℕ = scan (max_w - j) j none true in
      let rest : List Piece = pieces max_w chars (out.1 + 1) in
      if ltb j max_w then add_piece c out rest else []

-- `CharBitmap`; the loops run over `x - startscan` and `y - minHeight`.
unfoldable pub char_bitmap : Screen → Rect → Piece → Screen
char_bitmap bitmap b piece =
    let blank : Screen = record (new_screen 0 0 (piece.stop - piece.start) (b.max_h - b.min_h)) {
      has_mask = true;
      empty_color = paper bitmap;
    } in
    rows (λ x y. set_buffer x y (get_buffer bitmap (piece.start + x) (b.min_h + y)))
      (b.max_h - b.min_h) (piece.stop - piece.start) 0 blank

unfoldable pub insert_pieces : Screen → Rect → List Piece → Font → Font
insert_pieces bitmap b [] font = font
insert_pieces bitmap b (piece ∷ ps) font =
    insert_pieces bitmap b ps (insert piece.char (char_bitmap bitmap b piece) font)

-- `LoadBitmap`; `none` is the division by the length of an empty list of characters.
unfoldable pub load_bitmap : Screen → List ℕ → Font → Option Font
load_bitmap bitmap chars font =
    let b : Rect = rect bitmap in
    let min_char : ℕ = (b.max_w - b.min_w) / length chars / 3 in
    let cut : List Piece = pieces (ink bitmap b) min_char b.max_w chars b.min_w in
    if length chars == 0
    then none
    else some (insert_pieces bitmap b cut (record font { empty_color = paper bitmap }))
