-- ===== src/Console/Batch/Script.antt =====
-- A batch file against the list of its lines.
use lavoro_l.Base.{ℕ, ◌<◌, ◌≡◌, Bool, true, Option, none, some, List, [], ◌∷◌, ◌++◌, length}
use lavoro_l.Reader.{Reader}
use lavoro_l.Reader.Source.{Source}
use lavoro_l.Reader.ReadLine.{IsOneLine}
use lavoro_l.Console.{change_directory, run_batch, Strings, Command, Action, dispatch, handle}
use lavoro_l.Console.Operands.{IsText}
use lavoro_l.Console.Batch.{
  Nested, put_line, cut_after, globals_after, paths_fit, answer_of, Answer, prepend,
}

-- The bytes of a file with these lines, each with CR and LF.
abbrev pub file_bytes : List (List ℕ) → List ℕ
file_bytes [] = []
file_bytes (l ∷ ls) = l ++ 13 ∷ 10 ∷ file_bytes ls

-- No line has a terminator or an end of line inside.
abbrev pub AreLines : List (List ℕ) → Type 0
AreLines [] = Unit {0}
AreLines (l ∷ ls) = IsText l × IsOneLine l × AreLines ls

-- No line is longer than the 255 characters that fit `szLine`.
abbrev pub AreShort : List (List ℕ) → Type 0
AreShort [] = Unit {0}
AreShort (l ∷ ls) = (length l < 256) × AreShort ls

abbrev script_line : Option Bool → Action → Answer → Answer
script_line (some b) a rest = (a ∷ [], b)
script_line none a rest = prepend a rest

-- The current directory and `szLine` behind a line, where `left` is what each nested batch file leaves.
abbrev pub left_by :
    (List ℕ → List ℕ → List ℕ → List ℕ × List ℕ) → Action → List ℕ → List ℕ → List ℕ × List ℕ
left_by left (change_directory path) dir cells = (path, cells)
left_by left (run_batch path) dir cells = left path dir cells
left_by left a dir cells = (dir, cells)

module _ (lib : Strings) (nested : Nested) (left : List ℕ → List ℕ → List ℕ → List ℕ × List ℕ)
    (display : Bool) where
  -- The lines handled one after the other, each in the directory and over the cells that the ones
  -- before it left, up to the first that leaves.
  unfoldable pub script : List ℕ → List ℕ → List (List ℕ) → Answer
  script dir cells [] = ([], true)
  script dir cells (l ∷ ls) =
      let cells' : List ℕ = put_line l cells in
      let c : Command = dispatch lib l in
      let a : Action = handle c dir cells' in
      let kept : List ℕ × List ℕ = left_by left a dir (cut_after c cells') in
      script_line (answer_of display a) a (script kept.0 kept.1 ls)

  -- No handler builds a path that leaves `szPath`, and each nested batch file comes back and leaves what
  -- `left` says.
  unfoldable pub GoesOn : List ℕ → List ℕ → List (List ℕ) → Type 0
  GoesOn dir cells [] = Unit {0}
  GoesOn dir cells (l ∷ ls) =
      let cells' : List ℕ = put_line l cells in
      let c : Command = dispatch lib l in
      let a : Action = handle c dir cells' in
      let kept : List ℕ × List ℕ = left_by left a dir (cut_after c cells') in
      (paths_fit a ≡ true)
      × (globals_after nested a dir (cut_after c cells') ≡ some kept)
      × GoesOn kept.0 kept.1 ls
