-- ===== src/Font.antt =====
-- `LFont` of src/lfont.hpp: the two-level trie of the characters' bitmaps, and `DrawText`. The trie is
-- indexed by the low and the high byte of a CHAR16; a null pointer is `none`.
pub mod Lookup
pub mod Text
pub mod Lines
pub mod Table
pub mod Construct
pub mod Scan
use lavoro_l.Base.{
  ℕ, zero, suc, ◌+◌, ◌-◌, ◌*◌, ◌/◌, ◌%◌, Bool, true, false, not, Option, none, some, List, [], ◌∷◌,
  ◌==◌, if◌then◌else◌, ltb, leb,
}
use lavoro_l.Screen.{Screen, new_screen, fill, get_buffer, set_buffer, rows, scale}

-- `LFontHolder`: the root, the holders below it and the holders with the bitmaps.
pub record Leaf : Type 0 where
  pub bitmap : Option Screen

pub record Branch : Type 0 where
  pub leaves : ℕ → Option Leaf

pub record Font : Type 0 where
  pub trie : ℕ → Option Branch
  pub char_height : ℕ
  pub empty_color : ℕ

abbrev pub low : ℕ → ℕ
low c = c % 256

abbrev pub high : ℕ → ℕ
high c = c / 256 % 256

abbrev empty_branch : Branch
empty_branch = record { leaves = λ i. none }

abbrev pub branch_at : Font → ℕ → Branch
branch_at f i = elim (f.trie i) [ none ↦ empty_branch | some b ↦ b ]

-- The end of `LoadBitmap`: a character's bitmap goes into the trie, and the font's height is that of
-- the highest character.
unfoldable pub insert : ℕ → Screen → Font → Font
insert c bitmap f =
    let branch : Branch = branch_at f (low c) in
    record f {
      trie = λ i.
          if i == low c
          then some (record {
            leaves = λ j.
                if j == high c then some (record { bitmap = some bitmap }) else branch.leaves j;
          })
          else f.trie i;
      char_height = if ltb f.char_height bitmap.h then bitmap.h else f.char_height;
    }

-- `LFont::GetCharBitmap`
unfoldable pub get_char_bitmap : ℕ → Font → Option Screen
get_char_bitmap c f = elim (f.trie (low c)) [
  | none ↦ none
  | some b ↦ elim (b.leaves (high c)) [ none ↦ none | some l ↦ l.bitmap ]
]

-- `currentX`, `currentY` and the screen
pub record Cursor : Type 0 where
  pub x : ℕ
  pub y : ℕ
  pub screen : Screen

module _ (f : Font) (size : ℕ) where
  -- The bitmap of a character, or an empty one.
  unfoldable pub glyph : ℕ → Screen
  glyph c = elim (get_char_bitmap c f) [
    | none ↦ fill f.empty_color (new_screen 0 0 (f.char_height / 2) f.char_height)
    | some b ↦ b
  ]

  abbrev pub offset : Screen → ℕ
  offset c = ((f.char_height - c.h) * size + f.char_height - 1) / f.char_height

  -- The body of the two loops over a glyph, at column `x` and at row `y` from `OffsetY` on.
  unfoldable pub put_pixel : Screen → ℕ → ℕ → ℕ → ℕ → ℕ → Screen → Screen
  put_pixel c off cx cy x y s =
      let v : ℕ = get_buffer c x (y + off - off) in
      if v == f.empty_color then s else set_buffer (cx + x) (cy + (y + off) - off) v s

  -- A glyph goes to the next line where it does not fit in this one.
  unfoldable pub draw_glyph : Screen → ℕ → Cursor → Cursor
  draw_glyph c off t =
      let wraps : Bool = leb t.screen.w (t.x + c.w) in
      let cx : ℕ = if wraps then 0 else t.x in
      let cy : ℕ = if wraps then t.y + size else t.y in
      record { x = cx + c.w; y = cy; screen = rows (put_pixel c off cx cy) c.h c.w 0 t.screen }

  -- CR, LF, TAB and the space move the cursor.
  unfoldable pub draw_char : ℕ → Cursor → Cursor
  draw_char c t =
      let b : Screen = glyph c in
      if c == 13
      then record t { x = 0 }
      else if c == 10
      then record t { y = t.y + size }
      else if c == 9
      then record t { x = t.x + size / 2 * 4 }
      else if c == 32
      then record t { x = t.x + size / 2 }
      else draw_glyph (scale (size * 100 / f.char_height) b) (offset b) t

  unfoldable pub draw_chars : List ℕ → Cursor → Cursor
  draw_chars [] t = t
  draw_chars (c ∷ cs) t = draw_chars cs (draw_char c t)

  -- `LFont::DrawText`; `none` is the division by the height of a font without characters.
  unfoldable pub draw_text : List ℕ → Screen → Option Screen
  draw_text text s =
      let out : Cursor = draw_chars text (record { x = 0; y = 0; screen = s }) in
      if f.char_height == 0 then none else some out.screen
