-- ===== src/Explorer.antt =====
-- The main loop of `ScreenMode` in main.cpp: the four pages, the list of volumes or of a directory on
-- page 1, and the keys. The firmware's reading of a directory, and the two conversions between a
-- number and its text, are the record `Platform`. What is drawn is left to Screen; the state is what
-- the keys read and write.
pub mod Index
pub mod Listing
pub mod Empty
pub mod Viewer
pub mod Icons
pub mod Volumes
pub mod Windows
use lavoro_l.Base.{
  ℕ, zero, suc, ◌+◌, ◌-◌, Bool, true, false, not, ◌||◌, ◌&&◌, Option, none, some, List, [], ◌∷◌,
  ◌++◌, ◌==◌, if◌then◌else◌, ltb, length, get_or, drop, replicate,
}
use lavoro_l.Base.Int.{ℤ, pos, negsuc, ◌+ℤ◌, ◌-ℤ◌, ltb_ℤ, leb_ℤ}

-- A file of the listing: its name, and whether `EFI_FILE_DIRECTORY` is set.
pub record Entry : Type 0 where
  pub name : List ℕ
  pub directory : Bool

pub record Platform : Type 0 where
  pub volumes : ℕ
  pub list_directory : ℕ → List ℕ → List Entry
  pub decimal : ℕ → List ℕ
  pub atoi : List ℕ → ℕ

-- `volume` is `FileInterface`, as an index into `FileInterfaces`; `none` is the null pointer. `entries`
-- are the 64 cells of `ExplorerNames` and `ExplorerTypes`.
pub record Explorer : Type 0 where
  pub page : ℕ
  pub drawn : Bool
  pub volume : Option ℕ
  pub path : List ℕ
  pub active : ℤ
  pub count : ℕ
  pub entries : List Entry

pub data Key : Type 0 where
  esc f1 f2 f3 f10 f12 enter up down left right other : Key

-- How a key ends: the loop goes on, `ScreenMode` returns, a cell outside `ExplorerNames` and
-- `ExplorerTypes` is used, or one outside the other arrays: beyond the volumes that are counted in
-- `FileInterfaces`, or beyond the 256 cells of `szCurrentPath` and `szFilePath`.
pub data Outcome : Type 0 where
  running : Explorer → Outcome
  returned : Bool → Outcome
  fault : Outcome
  overrun : Outcome

abbrev pub and_then : Outcome → (Explorer → Outcome) → Outcome
and_then (running e) f = f e
and_then (returned b) f = returned b
and_then fault f = fault
and_then overrun f = overrun

-- Whether a text and its terminator fit an array of 256 cells, `MAX_PATH`.
abbrev pub fits : List ℕ → Bool
fits text = ltb (length text) 256

abbrev pub max_entries : ℕ
max_entries = 64

-- The state in which the loop is entered; `junk` is what the new name buffers hold.
abbrev pub start : List ℕ → List ℕ → Explorer
start junk path = record {
  page = 0;
  drawn = false;
  volume = none;
  path = path;
  active = pos 0;
  count = 0;
  entries = replicate max_entries (record { name = junk; directory = false });
}

-- `StrCat` of a name to a path, with a separator between them.
unfoldable pub ends_in_separator : List ℕ → Bool
ends_in_separator [] = false
ends_in_separator (c ∷ []) = c == 92
ends_in_separator (c ∷ d ∷ cs) = ends_in_separator (d ∷ cs)

-- As a text of any length: whether it fits its array is tested by `fits` where it is used.
unfoldable pub join_path : List ℕ → List ℕ → List ℕ
unfolding ends_in_separator
join_path path name = if ends_in_separator path then path ++ name else path ++ 92 ∷ name

abbrev pub entry_at : ℤ → List Entry → Option Entry
entry_at (negsuc n) es = none
entry_at (pos n) [] = none
entry_at (pos zero) (e ∷ es) = some e
entry_at (pos (suc n)) (e ∷ es) = entry_at (pos n) es

abbrev pub is_none {ℓ} : {A : Type ℓ} → Option A → Bool
is_none none = true
is_none (some a) = false

-- The listing of the volumes: one directory for each, named by its number, from `i` on.
unfoldable pub volume_entries : (ℕ → List ℕ) → ℕ → ℕ → List Entry
volume_entries decimal zero i = []
volume_entries decimal (suc n) i =
    record { name = decimal i; directory = true } ∷ volume_entries decimal n (i + 1)

-- The keys F1, F3 and F10
abbrev turn_to : ℕ → Explorer → Explorer
turn_to n e = record e { page = n; drawn = if e.page == n then e.drawn else false }

-- The keys up, down, left and right, on page 1
unfoldable pub move_back : ℕ → Explorer → Explorer
move_back n e =
    let i : ℤ = e.active -ℤ pos n in
    if e.page == 1
    then record e { active = if ltb_ℤ i (pos 0) then pos 0 else i; drawn = false }
    else e

unfoldable pub move_on : ℕ → Explorer → Explorer
move_on n e =
    let i : ℤ = e.active +ℤ pos n in
    if e.page == 1
    then record e {
      active = if leb_ℤ (pos e.count) i then pos e.count -ℤ pos 1 else i;
      drawn = false;
    }
    else e

module _ (p : Platform) where
  unfoldable pub listing : Explorer → List Entry
  unfolding volume_entries
  listing e = elim e.volume [
    | none ↦ volume_entries p.decimal p.volumes 0
    | some v ↦ p.list_directory v e.path
  ]

  -- The listing is written over the cells from the first on. More than 64 entries would be written
  -- past the arrays: here the list gets longer.
  unfoldable pub list_entries : Explorer → Explorer
  unfolding listing
  list_entries e =
      let new : List Entry = listing e in
      record e {
        drawn = true;
        count = length new;
        entries = new ++ drop (length new) e.entries;
        active = if ltb_ℤ (pos (length new)) e.active then pos 0 else e.active;
      }

  -- The first half of the loop: the page is drawn, if it is not.
  unfoldable pub draw_page : Explorer → Explorer
  unfolding list_entries
  draw_page e =
      if e.drawn then e else if e.page == 1 then list_entries e else record e { drawn = true }

  -- Page 2 shows the file at the index, where a volume is chosen.
  abbrev pub shows_entry : Explorer → Bool
  shows_entry e = not e.drawn && ((e.page == 2) && not (is_none e.volume))

  -- `szFilePath` is built of a file only.
  unfoldable pub draw_entry : Option Entry → Explorer → Outcome
  unfolding join_path
  draw_entry none e = fault
  draw_entry (some f) e =
      if not f.directory && not (fits (join_path e.path f.name))
      then overrun
      else running (draw_page e)

  unfoldable pub draw : Explorer → Outcome
  unfolding draw_entry
  draw e =
      if shows_entry e then draw_entry (entry_at e.active e.entries) e else running (draw_page e)

  -- Enter, on page 1: a volume of the list is entered at its root, a directory is descended into,
  -- and a file is shown on page 2.
  unfoldable pub open_at : Option ℕ → Entry → Explorer → Outcome
  unfolding join_path
  open_at none f e =
      if ltb (p.atoi f.name) p.volumes
      then running (record e { volume = some (p.atoi f.name); path = 92 ∷ []; drawn = false })
      else overrun
  open_at (some v) f e =
      if f.directory
      then (if fits (join_path e.path f.name)
          then running (record e { path = join_path e.path f.name; drawn = false })
          else overrun)
      else running (record e { page = 2; drawn = false })

  unfoldable pub open_entry : Option Entry → Explorer → Outcome
  open_entry none e = fault
  open_entry (some f) e = open_at e.volume f e

  -- The second half of the loop; `columns` is `Explorer.W / file.W`.
  unfoldable pub press : ℕ → Key → Explorer → Outcome
  press columns esc e = returned true
  press columns f12 e = returned false
  press columns f1 e = running (turn_to 0 e)
  press columns f2 e =
      running
        (record e { page = 1; volume = if e.page == 1 then none else e.volume; drawn = false })
  press columns f3 e = running (turn_to 2 e)
  press columns f10 e = running (turn_to 3 e)
  press columns enter e =
      if e.page == 1 then open_entry (entry_at e.active e.entries) e else running e
  press columns up e = running (move_back columns e)
  press columns down e = running (move_on columns e)
  press columns left e = running (move_back 1 e)
  press columns right e = running (move_on 1 e)
  press columns other e = running e

  -- The loop over the keys that are pressed.
  unfoldable pub run : ℕ → List Key → Explorer → Outcome
  run columns [] e = running e
  run columns (k ∷ ks) e = and_then (draw e) (λ e'. and_then (press columns k e') (run columns ks))
