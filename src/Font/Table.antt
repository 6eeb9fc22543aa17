-- ===== src/Font/Table.antt =====
-- src/lfont.cpp: the table of fonts. `LoadFonts` opens the font of each line of fonts.txt, and puts it
-- at the hash of its name. `open_font` gives the name and the font that `LFont::LFont`
-- (Font.Construct) makes of a path, `none` where it does not end. `none`: that, or a path that leaves
-- `szPath`.
use Prim.Native.Nat.{bit_or}
use lavoro_l.Base.{
  true, ℕ, ◌*◌, ◌%◌, ◌<◌, ◌≡◌, refl, Bool, Option, none, some, List, [], ◌∷◌, ◌++◌, ◌==◌,
  if◌then◌else◌, arith, length, Bool-cases, Option-cases, inl, inr, ◌∙◌,
}
use lavoro_l.Reader.{Reader, step}
use lavoro_l.Reader.Source.{Source}
use lavoro_l.Reader.Pending.{pending, next-spent}
use lavoro_l.Transfer.Copy.{IsFresh}
use lavoro_l.Console.Batch.Script.{file_bytes, AreLines}
use lavoro_l.Explorer.{fits}
use lavoro_l.Font.{Font}
use lavoro_l.Font.Lines.{each_line, put_lines, each_line-put_lines}

-- The loop of `FontNameHash`; the name ends before its terminator.
unfoldable pub hash_loop : ℕ → List ℕ → ℕ
hash_loop result [] = result
hash_loop result (c ∷ name) = hash_loop (bit_or (result * 256) c % 1024) name

unfoldable pub font_name_hash : List ℕ → ℕ
font_name_hash name = hash_loop 0 name

-- Every hash is an index of `Fonts`.
hash_loop-bounds : (result : ℕ) (name : List ℕ) → result < 1024 → hash_loop result name < 1024
unfolding hash_loop
hash_loop-bounds result [] h = h
hash_loop-bounds result (c ∷ name) h =
    hash_loop-bounds (bit_or (result * 256) c % 1024) name (omega arith)

font_name_hash-bounds : (name : List ℕ) → font_name_hash name < 1024
unfolding font_name_hash
font_name_hash-bounds name = hash_loop-bounds 0 name (omega arith)

pub record NamedFont : Type 0 where
  pub name : List ℕ
  pub font : Font

-- `Fonts`
abbrev pub Fonts : Type 0
Fonts = ℕ → Option NamedFont

-- `\assets\fonts\`
abbrev pub font_directory : List ℕ
font_directory =
    92 ∷ b'a' ∷ b's' ∷ b's' ∷ b'e' ∷ b't' ∷ b's' ∷ 92 ∷ b'f' ∷ b'o' ∷ b'n' ∷ b't' ∷ b's' ∷ 92 ∷ []

-- `GetFont`
unfoldable pub get_font : Fonts → List ℕ → Option NamedFont
get_font fonts name = fonts (font_name_hash name)

module _ (open_font : List ℕ → Option NamedFont) where
  -- The body of the loop of `LoadFonts`.
  abbrev pub put_font : Fonts → Option NamedFont → Option Fonts
  put_font fonts none = none
  put_font fonts (some font) =
      some (λ i. if i == font_name_hash font.name then some font else fonts i)

  unfoldable pub load_font : Option Fonts → List ℕ → Option Fonts
  load_font none text = none
  load_font (some fonts) text =
      if fits (font_directory ++ text)
      then put_font fonts (open_font (font_directory ++ text))
      else none

  -- `LoadFonts`, on rounds for the lines
  unfoldable pub load_fonts :
      {S : Type 0}
      → (Reader S → Bool × Reader S)
      → ℕ
      → ℕ
      → ℕ
      → Reader S
      → Option (Option Fonts × Reader S)
  load_fonts read_buffer before fuel rounds r =
      each_line read_buffer before fuel load_font rounds (some (λ i. none)) (step read_buffer r)

  -- Each line that is not empty is short enough for `szPath`, and its font opens as `font_of` says.
  abbrev pub Opens : (List ℕ → NamedFont) → List (List ℕ) → Type 0
  Opens font_of [] = Unit {0}
  Opens font_of ([] ∷ ls) = Opens font_of ls
  Opens font_of ((c ∷ text) ∷ ls) =
      (length (font_directory ++ c ∷ text) < 256)
      × (open_font (font_directory ++ c ∷ text) ≡ some (font_of (c ∷ text)))
      × Opens font_of ls

  -- The font of the last line whose font has this hash.
  abbrev pub last_font : (List ℕ → NamedFont) → ℕ → List (List ℕ) → Option NamedFont
  last_font font_of h [] = none
  last_font font_of h ([] ∷ ls) = last_font font_of h ls
  last_font font_of h ((c ∷ text) ∷ ls) = elim (last_font font_of h ls) [
    | some font ↦ some font
    | none ↦
        let font : NamedFont = font_of (c ∷ text) in
        if h == font_name_hash font.name then some font else none
  ]

  abbrev or_else : Option NamedFont → Option NamedFont → Option NamedFont
  or_else (some font) o = some font
  or_else none o = o

  or_else-none : (o : Option NamedFont) → or_else o none ≡ o
  or_else-none none = refl
  or_else-none (some font) = refl

  put_lines-load_font :
      (font_of : List ℕ → NamedFont) (ls : List (List ℕ)) (fonts : Fonts) (h : ℕ)
      → Opens font_of ls
      → (fonts' : Fonts) × (put_lines load_font (some fonts) ls ≡ some fonts')
        × (fonts' h ≡ or_else (last_font font_of h ls) (fonts h))
  unfolding load_font
  put_lines-load_font font_of [] fonts h o = (fonts, refl, refl)
  put_lines-load_font font_of ([] ∷ ls) fonts h o = put_lines-load_font font_of ls fonts h o
  put_lines-load_font font_of ((c ∷ text) ∷ ls) fonts h (short, opens, o) =
      let font : NamedFont = font_of (c ∷ text) in
      let fonts1 : Fonts = λ i. if i == font_name_hash font.name then some font else fonts i in
      let rest = put_lines-load_font font_of ls fonts1 h o in
      let inside : fits (font_directory ++ c ∷ text) ≡ true = ground arith in
      (
        rest.0,
        rw (inside, opens) rest.1,
        rest.2 ∙ elim (Option-cases (last_font font_of h ls)) [
          | inl nothing_later ↦ elim (Bool-cases (h == font_name_hash font.name)) [
            | inl same ↦ rw (nothing_later, same) refl
            | inr other ↦ rw (nothing_later, other) refl
          ]
          | inr (later_font, later) ↦ rw later refl
        ],
      )

  -- `LoadFonts` on a list of fonts that was just opened, each line ended by CR LF: with more rounds
  -- than lines and more fuel than bytes it ends, where no path is longer than 255 characters and each
  -- font opens. `GetFont` then gives the last font that was listed
  -- whose name has the hash of the name that is asked for, and null where there is none.
  pub load_fonts_lem :
      {S : Type 0} {read_buffer : Reader S → Bool × Reader S} (src : Source read_buffer)
      (before fuel rounds : ℕ) (font_of : List ℕ → NamedFont) (ls : List (List ℕ)) (name : List ℕ)
      {r : Reader S}
      → IsFresh r
      → pending src.rest r ≡ file_bytes ls
      → AreLines ls
      → Opens font_of ls
      → length ls < rounds
      → length (file_bytes ls) < fuel
      → (fonts : Fonts) × (r' : Reader S) × (load_fonts read_buffer before fuel rounds r
          ≡ some (some fonts, r'))
        × (get_font fonts name ≡ last_font font_of (font_name_hash name) ls)
  unfolding load_fonts get_font
  load_fonts_lem src before fuel rounds font_of ls name {r} f e t o n l =
      let run =
        each_line-put_lines src before fuel load_font rounds ls (some (λ i. none))
          (rw e at (next-spent src f.valid f.live f.spent)) t n l in
      let table = put_lines-load_font font_of ls (λ i. none) (font_name_hash name) o in
      (table.0, run.0, rw table.1 at run.1, table.2 ∙ or_else-none _)
