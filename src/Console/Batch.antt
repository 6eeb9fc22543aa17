-- ===== src/Console/Batch.antt =====
-- The loop of `ConsoleMode` over the lines of a batch file: each line is read into `szLine`, its command
-- is chosen and handled, and the loop ends with the file, or with `quit` or `end`. `szLine` keeps the
-- cells behind a line's end from earlier lines, and the space that a handler has cut. `before` is the
-- cell below `szLine`, and `nested` what a batch file called from this one leaves of the two globals
-- that it shares with it, the current directory and `szLine`. `display` tells whether the firmware has
-- the graphics protocol.
pub mod Script
use lavoro_l.Base.{
  ◌&&◌, ℕ, zero, suc, ◌+◌, Bool, true, false, Option, none, some, List, [], ◌∷◌, ◌++◌,
  if◌then◌else◌, drop, length,
}
use lavoro_l.Reader.{Reader, Line, line, underrun, at_end, read_line}
use lavoro_l.Transfer.{c_string}
use lavoro_l.Explorer.{fits}
use lavoro_l.Console.{
  Strings, Command, cp, mv, addline, filldemo, printmodes, Action, change_directory, show_file,
  remove, copy, move, append_line, make_directory, run_batch, leave, program, dispatch, handle,
  cut_first, cut_all, from_offset,
}

-- `ReadLine(szLine)`: the cells behind the terminator stay. A line that leaves the 256 cells is kept out
-- by `batch`.
abbrev pub put_line : List ℕ → List ℕ → List ℕ
put_line text cells = text ++ 0 ∷ drop (length text + 1) cells

-- What a nested batch file leaves: of its path, the current directory and the cells of `szLine`; `none`
-- where it does not come back, as one that calls itself.
abbrev pub Nested : Type 0
Nested = List ℕ → List ℕ → List ℕ → Option (List ℕ × List ℕ)

-- The cells once the line is handled, its own command's cuts first.
abbrev pub cut_after : Command → List ℕ → List ℕ
cut_after cp cells = from_offset 3 cut_first cells
cut_after mv cells = from_offset 3 cut_all cells
cut_after addline cells = from_offset 8 cut_first cells
cut_after c cells = cells

-- `szCurrentPath` and `szLine` once the line is handled.
abbrev pub globals_after : Nested → Action → List ℕ → List ℕ → Option (List ℕ × List ℕ)
globals_after nested (change_directory path) dir cells = some (path, cells)
globals_after nested (run_batch path) dir cells = nested path dir cells
globals_after nested a dir cells = some (dir, cells)

-- Whether a handler leaves `ConsoleMode`, and with which answer: filldemo and printmodes do without the
-- graphics protocol, with an error status, which counts as true.
abbrev pub answer_of : Bool → Action → Option Bool
answer_of display (leave b) = some b
answer_of display (program filldemo) = if display then none else some true
answer_of display (program printmodes) = if display then none else some true
answer_of display a = none

-- Whether the paths that a handler builds fit `szPath`.
abbrev pub paths_fit : Action → Bool
paths_fit (change_directory path) = fits path
paths_fit (show_file path) = fits path
paths_fit (remove path) = fits path
paths_fit (copy a b) = fits a && fits b
paths_fit (move a b) = fits a && fits b
paths_fit (append_line path text) = fits path
paths_fit (make_directory path) = fits path
paths_fit (run_batch path) = fits path
paths_fit a = true

abbrev pub Answer : Type 0
Answer = List Action × Bool

abbrev pub prepend : Action → Answer → Answer
prepend a (as', b) = (a ∷ as', b)

-- After a line: the loop is left by a handler, or at the end of the file, or goes on.
abbrev pub go_on : Option Bool → Action → Bool → Option Answer → Option Answer
go_on (some b) a over rest = some (a ∷ [], b)
go_on none a true rest = some (a ∷ [], true)
go_on none a false none = none
go_on none a false (some more) = some (prepend a more)

module _ (lib : Strings) (nested : Nested) (display : Bool) {S : Type 0}
    (read_buffer : Reader S → Bool × Reader S) (before fuel : ℕ) where
  -- `none`: the fuel, or the rounds, ran out, a line or a path left its array, or a nested
  -- batch file did not come back.
  unfoldable pub batch : ℕ → List ℕ → List ℕ → Reader S → Option Answer
  batch zero dir cells r = none
  batch (suc n) dir cells r = elim (read_line read_buffer before fuel r) [
    | none ↦ none
    | some (out, r') ↦ elim out [
      | underrun ↦ none
      | line text ↦
          let cells' : List ℕ = put_line text cells in
          let c : Command = dispatch lib (c_string cells') in
          let a : Action = handle c dir cells' in
          let after : Option Answer = elim (globals_after nested a dir (cut_after c cells')) [
            | none ↦ none
            | some (dir', kept) ↦ go_on (answer_of display a) a (at_end r') (batch n dir' kept r')
          ] in
          if fits text && paths_fit a then after else none
    ]
  ]
