-- ===== src/Console.antt =====
-- `ConsoleMode` of main.cpp: which command a line is, and which file operations its handler asks for.
-- `szLine` is the list of its cells, with the terminator and what lies behind it; a text is the cells
-- up to a terminator. The string functions of gnu-efi are the record `Strings`.
pub mod Dispatch
pub mod Operands
pub mod Batch
pub mod Address
pub mod Ls
use lavoro_l.Base.{
  ℕ, ◌+◌, Bool, true, false, ◌&&◌, Option, none, some, List, [], ◌∷◌, ◌++◌, ◌==◌, if◌then◌else◌,
  length, take, drop,
}
use lavoro_l.Explorer.{join_path}
use lavoro_l.Transfer.{c_string}

-- `!StrCmp(a, b)` and `!StrnCmp(a, b, n)`
pub record Strings : Type 0 where
  pub equal : List ℕ → List ℕ → Bool
  pub equal_upto : ℕ → List ℕ → List ℕ → Bool

pub data Command : Type 0 where
  box pyramids ant_tsp ls cd cwd cat connect accept filldemo printmodes quit end rm cp mv addline
        mkdir batch :
      Command
  unknown : Command

-- The word that a command is tested against.
abbrev pub word : Command → List ℕ
word box = b'A' ∷ b'C' ∷ b'M' ∷ b'/' ∷ b'B' ∷ b'o' ∷ b'x' ∷ []
word pyramids =
    b'A' ∷ b'C' ∷ b'M' ∷ b'/' ∷ b'P' ∷ b'y' ∷ b'r' ∷ b'a' ∷ b'm' ∷ b'i' ∷ b'd' ∷ b's' ∷ []
word ant_tsp = b'A' ∷ b'n' ∷ b't' ∷ b'T' ∷ b'S' ∷ b'P' ∷ []
word ls = b'l' ∷ b's' ∷ []
word cd = b'c' ∷ b'd' ∷ []
word cwd = b'c' ∷ b'w' ∷ b'd' ∷ []
word cat = b'c' ∷ b'a' ∷ b't' ∷ []
word connect = b'c' ∷ b'o' ∷ b'n' ∷ b'n' ∷ b'e' ∷ b'c' ∷ b't' ∷ []
word accept = b'a' ∷ b'c' ∷ b'c' ∷ b'e' ∷ b'p' ∷ b't' ∷ []
word filldemo = b'f' ∷ b'i' ∷ b'l' ∷ b'l' ∷ b'd' ∷ b'e' ∷ b'm' ∷ b'o' ∷ []
word printmodes = b'p' ∷ b'r' ∷ b'i' ∷ b'n' ∷ b't' ∷ b'm' ∷ b'o' ∷ b'd' ∷ b'e' ∷ b's' ∷ []
word quit = b'q' ∷ b'u' ∷ b'i' ∷ b't' ∷ []
word end = b'e' ∷ b'n' ∷ b'd' ∷ []
word rm = b'r' ∷ b'm' ∷ []
word cp = b'c' ∷ b'p' ∷ []
word mv = b'm' ∷ b'v' ∷ []
word addline = b'a' ∷ b'd' ∷ b'd' ∷ b'l' ∷ b'i' ∷ b'n' ∷ b'e' ∷ []
word mkdir = b'm' ∷ b'k' ∷ b'd' ∷ b'i' ∷ b'r' ∷ []
word batch = b'b' ∷ b'a' ∷ b't' ∷ b'c' ∷ b'h' ∷ []
word unknown = []

module _ (lib : Strings) where
  -- A test of the line against a command's whole word, and against its first letters.
  abbrev is_word : Command → List ℕ → Bool
  is_word c line = lib.equal line (word c)

  abbrev begins : Command → List ℕ → Bool
  begins c line = lib.equal_upto (length (word c)) line (word c)

  -- The chain of tests, in the order of the source.
  unfoldable pub dispatch : List ℕ → Command
  dispatch line =
      if is_word box line
      then box
      else if is_word pyramids line
      then pyramids
      else if is_word ant_tsp line
      then ant_tsp
      else if is_word ls line
      then ls
      else if begins cd line
      then cd
      else if is_word cwd line
      then cwd
      else if begins cat line
      then cat
      else if begins connect line
      then connect
      else if begins accept line
      then accept
      else if begins filldemo line
      then filldemo
      else if begins printmodes line
      then printmodes
      else if is_word quit line
      then quit
      else if is_word end line
      then end
      else if begins rm line
      then rm
      else if begins cp line
      then cp
      else if begins mv line
      then mv
      else if begins addline line
      then addline
      else if begins mkdir line
      then mkdir
      else if begins batch line
      then batch
      else unknown

-- `szLine + k`, as a text.
abbrev pub text_at : ℕ → List ℕ → List ℕ
text_at k cells = c_string (drop k cells)

-- The path that a handler builds in `szPath` from an argument: below the current directory, unless it
-- begins with a separator.
-- As a text of any length: whether it fits `szPath` is tested by `fits` where it is used.
unfoldable pub resolve : List ℕ → List ℕ → List ℕ
resolve dir [] = join_path dir []
resolve dir (c ∷ arg) = if c == 92 then c ∷ arg else join_path dir (c ∷ arg)

-- cp and addline: the first space of the text becomes its end.
unfoldable pub cut_first : List ℕ → List ℕ
cut_first [] = []
cut_first (c ∷ cells) =
    if c == 0 then c ∷ cells else if c == 32 then 0 ∷ cells else (c ∷ cut_first cells)

-- mv: every space does.
unfoldable pub cut_all : List ℕ → List ℕ
cut_all [] = []
cut_all (c ∷ cells) = if c == 0 then c ∷ cells else ((if c == 32 then 0 else c) ∷ cut_all cells)

-- The loop runs from `szLine + k` on.
abbrev pub from_offset : ℕ → (List ℕ → List ℕ) → List ℕ → List ℕ
from_offset k f cells = take k cells ++ f (drop k cells)

-- `szLine + StrLen(szLine) + 1`
abbrev pub second_text : List ℕ → List ℕ
second_text cells = text_at (length (c_string cells) + 1) cells

-- What a handler asks of the files, with the paths that it builds.
pub data Action : Type 0 where
  change_directory : List ℕ → Action
  show_directory : List ℕ → Action
  print_directory : List ℕ → Action
  show_file : List ℕ → Action
  remove : List ℕ → Action
  copy : List ℕ → List ℕ → Action
  move : List ℕ → List ℕ → Action
  append_line : List ℕ → List ℕ → Action
  make_directory : List ℕ → Action
  run_batch : List ℕ → Action
  leave : Bool → Action
  program : Command → Action

-- cp, mv and addline, once the line is cut
abbrev pub two_paths : (List ℕ → List ℕ → Action) → List ℕ → ℕ → List ℕ → Action
two_paths make dir k cells = make (resolve dir (text_at k cells)) (resolve dir (second_text cells))

abbrev pub path_and_text : List ℕ → ℕ → List ℕ → Action
path_and_text dir k cells = append_line (resolve dir (text_at k cells)) (second_text cells)

-- The handlers, with the paths that they build.
abbrev pub cd_action : List ℕ → List ℕ → Action
cd_action dir cells = change_directory (resolve dir (text_at 3 cells))

abbrev pub cat_action : List ℕ → List ℕ → Action
cat_action dir cells = show_file (resolve dir (text_at 4 cells))

abbrev pub rm_action : List ℕ → List ℕ → Action
rm_action dir cells = remove (resolve dir (text_at 3 cells))

abbrev pub cp_action : List ℕ → List ℕ → Action
cp_action dir cells = two_paths copy dir 3 (from_offset 3 cut_first cells)

abbrev pub mv_action : List ℕ → List ℕ → Action
mv_action dir cells = two_paths move dir 3 (from_offset 3 cut_all cells)

abbrev pub addline_action : List ℕ → List ℕ → Action
addline_action dir cells = path_and_text dir 8 (from_offset 8 cut_first cells)

abbrev pub mkdir_action : List ℕ → List ℕ → Action
mkdir_action dir cells = make_directory (resolve dir (text_at 6 cells))

abbrev pub batch_action : List ℕ → List ℕ → Action
batch_action dir cells = run_batch (resolve dir (text_at 6 cells))

-- What each command does. `quit` leaves `ConsoleMode` with false, `end` with true.
unfoldable pub handle : Command → List ℕ → List ℕ → Action
handle ls dir cells = print_directory dir
handle cd dir cells = cd_action dir cells
handle cwd dir cells = show_directory dir
handle cat dir cells = cat_action dir cells
handle rm dir cells = rm_action dir cells
handle cp dir cells = cp_action dir cells
handle mv dir cells = mv_action dir cells
handle addline dir cells = addline_action dir cells
handle mkdir dir cells = mkdir_action dir cells
handle batch dir cells = batch_action dir cells
handle quit dir cells = leave false
handle end dir cells = leave true
handle c dir cells = program c
