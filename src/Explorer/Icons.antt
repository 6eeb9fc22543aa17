-- ===== src/Explorer/Icons.antt =====
-- What `ScreenMode` of main.cpp draws for a listing: a picture for each entry, in rows from left to right,
-- and the entry's name below it. The drawing itself is `draw_at` of Screen.
pub mod Grid
use lavoro_l.Base.{ℕ, zero, suc, ◌+◌, Bool, false, List, [], ◌∷◌, ◌==◌, if◌then◌else◌, leb}
use lavoro_l.Base.Int.{ℤ, pos, negsuc}
use lavoro_l.Explorer.{Entry}

-- The six pictures
pub data Picture : Type 0 where
  activedisk disk activefolder folder activefile file : Picture

-- A picture at its place; the name is drawn at the picture's lower edge.
pub record Icon : Type 0 where
  pub x : ℕ
  pub y : ℕ
  pub picture : Picture
  pub name : List ℕ

abbrev pub is_at : ℤ → ℕ → Bool
is_at (pos n) i = i == n
is_at (negsuc n) i = false

-- `chosen`: a volume is chosen; `active`: this is the active entry.
abbrev pub picture_of : Bool → Bool → Bool → Picture
picture_of chosen active directory =
    if directory
    then (if active
        then (if chosen then activefolder else activedisk)
        else (if chosen then folder else disk))
    else (if active then activefile else file)

-- `W` of the explorer, and `file.W` and `file.H`.
module _ (width w h : ℕ) (chosen : Bool) (active : ℤ) where
  -- The loop over the entries: `ExplorerCount`, `currentX` and `currentY`.
  unfoldable pub icons : List Entry → ℕ → ℕ → ℕ → List Icon
  icons [] i x y = []
  icons (e ∷ es) i x y =
      let wraps : Bool = leb width (x + w) in
      let x' : ℕ = if wraps then 0 else x in
      let y' : ℕ = if wraps then y + (h + 40) else y in
      record {
        x = x';
        y = y';
        picture = picture_of chosen (is_at active i) e.directory;
        name = e.name;
      }
      ∷ icons es (i + 1) (x' + w) y'

  unfoldable pub draw_entries : List Entry → List Icon
  draw_entries es = icons es 0 0 0
