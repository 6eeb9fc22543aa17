-- ===== src/Explorer/Windows.antt =====
-- What `ScreenMode` sets up before its loop: the places of the logo, of the four windows and of the box
-- with the time, and the texts of the pages help and readme.
pub mod Places
pub mod Text
use lavoro_l.Base.{
  ℕ, ◌+◌, ◌-◌, ◌*◌, ◌/◌, ◌%◌, ◌^◌, Bool, Option, none, some, List, [], ◌∷◌, ◌++◌, if◌then◌else◌,
  length, ltb,
}
use lavoro_l.Base.Int.{ℤ, pos, negsuc, sub_ℕ}
use lavoro_l.Reader.{Reader, step}
use lavoro_l.Reader.Drain.{drain}

-- `>> k` of a signed integer rounds down.
abbrev pub half : ℤ → ℤ
half (pos n) = pos (n / 2)
half (negsuc n) = negsuc (n / 2)

-- A window: its left upper corner, its width and its height.
pub record Window : Type 0 where
  pub x : ℤ
  pub y : ℤ
  pub w : ℕ
  pub h : ℕ

pub record Layout : Type 0 where
  pub logo : Window
  pub page : Window
  pub time : Window

-- `ActiveHeight`, an `unsigned`
abbrev pub active_height : ℕ → ℕ → ℕ
active_height h logo_h = (h + 2 ^ 32 - (logo_h + 4)) % 2 ^ 32

-- From the sizes of the main screen and of the logo's picture. `page` is the place of Help, Explorer,
-- Viewer and Readme, and `time` that of CurrentTimeBox.
unfoldable pub layout : ℕ → ℕ → ℕ → ℕ → Layout
layout w h logo_w logo_h = record {
  logo = record { x = half (sub_ℕ w logo_w); y = pos 0; w = logo_w; h = logo_h };
  page = record { x = pos 0; y = pos (logo_h + 4); w = w; h = active_height h logo_h };
  time = record { x = pos (w * 3 / 4); y = half (sub_ℕ logo_h (2 * 32)); w = w / 4; h = 2 * 32 };
}

abbrev pub message_size : ℕ
message_size = 4096

-- The text of a page in its array of 4096 cells, the terminator with it; `overrun` is a text that leaves the array.
pub data Message : Type 0 where
  message : List ℕ → Message
  overrun : Message

abbrev pub put_cell : List ℕ → ℕ → List ℕ
put_cell cells c = cells ++ c ∷ []

-- `HelpMessage` and `ReadmeMessage`; `none`: the fuel ran out.
unfoldable pub read_message :
    {S : Type 0} → (Reader S → Bool × Reader S) → ℕ → Reader S → Option Message
read_message read_buffer fuel r = elim (drain read_buffer put_cell fuel [] (step read_buffer r)) [
  | none ↦ none
  | some (cells, r') ↦ some (if ltb (length cells) message_size then message cells else overrun)
]
