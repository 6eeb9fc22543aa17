-- ===== src/Graphics.antt =====
-- The graphics protocol of the firmware, as main.cpp and src/lscreen.cpp use it: `draw_boxes` (filldemo),
-- `print_modes` (printmodes) and `InitializeGraphics`. The protocol is the parameter `Gop`, over the
-- firmware's state.
pub mod Drawn
use lavoro_l.Base.{
  ℕ, zero, suc, ◌+◌, ◌-◌, ◌*◌, ◌%◌, ◌^◌, Bool, true, false, Option, none, some, List, [], ◌∷◌, ◌++◌,
  if◌then◌else◌,
}
use lavoro_l.Boxes.{fill_boxes}
use lavoro_l.Screen.{Screen, new_screen}

-- `PixelFormat`; `invalid` is any value that the code does not name.
pub data PixelFormat : Type 0 where
  red_green_blue blue_green_red blt_only invalid : PixelFormat
  bit_mask : ℕ → ℕ → ℕ → ℕ → PixelFormat

-- EFI_GRAPHICS_OUTPUT_MODE_INFORMATION
pub record Info : Type 0 where
  pub horizontal : ℕ
  pub vertical : ℕ
  pub format : PixelFormat
  pub pitch : ℕ

-- What `QueryMode` gives: EFI_NOT_STARTED is told apart from the other errors.
pub data Query : Type 0 where
  answered : Info → Query
  not_started failed : Query

-- `gop->Mode`
pub record GopMode : Type 0 where
  pub max_mode : ℕ
  pub mode : ℕ
  pub info : Info

-- `same` is the comparison of the bytes by `CompareMem`.
pub record Gop : Type 1 where
  pub Env : Type 0
  pub mode_of : Env → Option GopMode
  pub query_mode : ℕ → Env → Query × Env
  pub set_mode : ℕ → Env → Env
  pub same : Info → Info → Bool

abbrev pub info_of : Query → Option Info
info_of (answered i) = some i
info_of not_started = none
info_of failed = none

-- `gop->Mode ? gop->Mode->Mode : 0`
abbrev pub mode_number : Option GopMode → ℕ
mode_number none = 0
mode_number (some m) = m.mode

-- What `Blt` is given: its width and height, and the pixels.
pub record Drawing : Type 0 where
  pub width : ℕ
  pub height : ℕ
  pub pixels : List ℕ

-- What `print_modes` prints: whether `gop->Mode` is null or its `MaxMode`, that the protocol is to be
-- started, a mode's bad response, and a mode with its mark.
pub data ModeText : Type 0 where
  max_modes : ℕ → ModeText
  null_mode : ModeText
  starting : ModeText
  bad_response : ℕ → ModeText
  mode_line : Bool → ℕ → Info → ModeText

module _ (gop : Gop) where
  open gop use {Env, mode_of, query_mode, set_mode, same}

  abbrev pub ask_again : ℕ → Query × Env → Query × Env
  ask_again i (answered info, e) = (answered info, e)
  ask_again i (failed, e) = (failed, e)
  ask_again i (not_started, e) = query_mode i (set_mode (mode_number (mode_of e)) e)

  -- `QueryMode`, once more behind `SetMode` where the protocol is not started
  unfoldable pub ask : ℕ → Env → Query × Env
  ask i e = ask_again i (query_mode i e)

  -- `AllocatePool` of a number of bytes
  module _ (allocate : ℕ → Option (List ℕ)) where
    -- `NumPixels`, and `BufferSize`, which is a UINT32
    abbrev pub buffer_size : Info → ℕ
    buffer_size info = info.vertical * info.horizontal * 4 % 2 ^ 32

    unfoldable pub draw_mode : Info → Option Drawing
    draw_mode info = elim (allocate (buffer_size info)) [
      | none ↦ none
      | some cells ↦ some (record {
        width = info.horizontal;
        height = info.vertical;
        pixels = fill_boxes info.horizontal info.vertical cells;
      })
    ]

    -- The loop over the modes: the rounds left, and `i`.
    unfoldable pub draw_loop : ℕ → ℕ → Env → Option Drawing × Env
    unfolding ask draw_mode
    draw_loop zero i e = (none, e)
    draw_loop (suc n) i e =
        let (out, e') = ask i e in
        let rest : Option Drawing × Env = draw_loop n (i + 1) e' in
        elim (info_of out) [ none ↦ rest | some info ↦ (draw_mode info, e') ]

    -- What is drawn, if anything is.
    unfoldable pub draw_boxes : Env → Option Drawing × Env
    unfolding draw_loop
    draw_boxes e = elim (mode_of e) [
      | none ↦ (none, e)
      | some m ↦ draw_loop (m.max_mode - m.mode) m.mode e
    ]

  -- `gop->Mode && CompareMem(info, gop->Mode->Info) == 0`
  abbrev pub is_current : Info → Option GopMode → Bool
  is_current info none = false
  is_current info (some m) = same info m.info

  abbrev pub print_info : ℕ → Option Info → Env → ModeText
  print_info i none e = bad_response i
  print_info i (some info) e = mode_line (is_current info (mode_of e)) i info

  abbrev pub print_started : Query → List ModeText
  print_started not_started = starting ∷ []
  print_started q = []

  -- The loop of `print_modes`: the rounds left, and `i`.
  unfoldable pub print_loop : ℕ → ℕ → Env → List ModeText × Env
  unfolding ask
  print_loop zero i e = ([], e)
  print_loop (suc n) i e =
      let (out, e') = ask i e in
      let rest : List ModeText × Env = print_loop n (i + 1) e' in
      (print_started (query_mode i e).0 ++ print_info i (info_of out) e' ∷ rest.0, rest.1)

  unfoldable pub print_modes : Env → List ModeText × Env
  unfolding print_loop
  print_modes e = elim (mode_of e) [
    | none ↦ (let rest = print_loop 1 0 e in (null_mode ∷ rest.0, rest.1))
    | some m ↦ (let rest = print_loop m.max_mode 0 e in (max_modes m.max_mode ∷ rest.0, rest.1))
  ]

  -- `InitializeGraphics`: whether the protocol is located, the mode's number, and `LoadFonts`; the fonts
  -- and `MainScreen`.
  unfoldable pub initialize_graphics :
      {F : Type 0} → Bool → (Env → ℕ) → (Env → F) → Env → Option (F × Screen)
  initialize_graphics located number load_fonts e =
      let (out, e') = query_mode (number e) e in
      if located
      then (elim (info_of out) [
        | none ↦ none
        | some info ↦ some (load_fonts e', new_screen 0 0 info.horizontal info.vertical)
      ])
      else none
