-- ===== src/Font/Construct.antt =====
-- `LFont::LFont` of src/lfont.hpp: the font's name, and for each line of its file the picture and the
-- characters that it shows. `open_bitmap` is the file of a picture as `LBitmap` gives it; `junk` is what
-- `szLine`, a new array for every line, holds behind the line. `none`: a line leaves the array, or a
-- picture without characters is divided by their number.
use lavoro_l.Base.{
  ℕ, suc, ◌+◌, ◌<◌, ◌≢◌, Bool, Option, none, some, List, [], ◌∷◌, ◌++◌, ◌==◌, if◌then◌else◌, length,
  take, drop,
}
use lavoro_l.Reader.{Reader, line, underrun, read_line, step}
use lavoro_l.Reader.Source.{Source}
use lavoro_l.Reader.ReadLine.{loaded}
use lavoro_l.Transfer.{c_string}
use lavoro_l.Console.Operands.{IsText}
use lavoro_l.Explorer.{fits}
use lavoro_l.Screen.{Screen}
use lavoro_l.Font.{Font}
use lavoro_l.Font.Scan.{load_bitmap}
use lavoro_l.Font.Lines.{each_line}

-- The index of the first comma, or of the line's end.
unfoldable pub comma : List ℕ → ℕ
comma [] = 0
comma (c ∷ text) = let rest : ℕ = comma text in if c == 44 then 0 else suc rest

module _ (open_bitmap : List ℕ → Screen) (junk : List ℕ) where
  -- The body of the loop: `szLine` is cut at the comma.
  unfoldable pub load_line : Option Font → List ℕ → Option Font
  unfolding load_bitmap
  load_line none text = none
  load_line (some font) text =
      let cells : List ℕ = text ++ 0 ∷ junk in
      let bitmap : Screen = open_bitmap (take (comma text) text) in
      let loaded : Option Font = load_bitmap bitmap (c_string (drop (comma text + 1) cells)) font in
      if fits text then loaded else none

  abbrev named : List ℕ → Option Font → Option (List ℕ × Font)
  named name none = none
  named name (some font) = if fits name then some (name, font) else none

  -- `LFont::LFont`: the name and the font.
  unfoldable pub new_font :
      {S : Type 0}
      → (Reader S → Bool × Reader S)
      → ℕ
      → ℕ
      → ℕ
      → Font
      → Reader S
      → Option (List ℕ × Font)
  new_font read_buffer before fuel rounds font r =
      elim (read_line read_buffer before fuel (step read_buffer r)) [
        | none ↦ none
        | some (out, r') ↦ elim out [
          | underrun ↦ none
          | line name ↦ elim (each_line read_buffer before fuel load_line rounds (some font) r') [
            | none ↦ none
            | some (font', r2) ↦ named (c_string (name ++ 0 ∷ [])) font'
          ]
        ]
      ]

  -- A line of a font's file: the picture's name, and the characters in it.
  abbrev pub entry : List ℕ × List ℕ → List ℕ
  entry (file, chars) = file ++ 44 ∷ chars

  abbrev pub entries : List (List ℕ × List ℕ) → List (List ℕ)
  entries [] = []
  entries (e ∷ es) = entry e ∷ entries es

  -- No comma in a picture's name, and at least one character.
  abbrev HasNoComma : List ℕ → Type 0
  HasNoComma [] = Unit {0}
  HasNoComma (c ∷ cs) = (c ≢ 44) × HasNoComma cs

  abbrev pub AreEntries : List (List ℕ × List ℕ) → Type 0
  AreEntries [] = Unit {0}
  AreEntries ((file, chars) ∷ es) =
      HasNoComma file × IsText chars × (0 < length chars) × AreEntries es

  -- The pictures loaded one after the other.
  abbrev pub load_entry : List ℕ → List ℕ → Option Font → Option Font
  load_entry file chars none = none
  load_entry file chars (some font) = load_bitmap (open_bitmap file) chars font

  abbrev pub load_all : List (List ℕ × List ℕ) → Option Font → Option Font
  load_all [] font = font
  load_all ((file, chars) ∷ es) font = load_all es (load_entry file chars font)
