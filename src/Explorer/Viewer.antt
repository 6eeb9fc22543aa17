-- ===== src/Explorer/Viewer.antt =====
-- Page 2 of `ScreenMode` in main.cpp, the viewer: a picture is shrunk until it fits and is drawn in the
-- middle, and of any other file the first 4096 bytes are drawn as a text.
pub mod Content
pub mod Picture
use lavoro_l.Base.{
  ℕ, zero, suc, ◌+◌, ◌-◌, ◌*◌, ◌/◌, Bool, Option, List, [], ◌∷◌, if◌then◌else◌, ltb,
}
use lavoro_l.Reader.{Reader, at_end, current, step, char16}
use lavoro_l.Screen.{Screen, fill, scale, draw_at}
use lavoro_l.Font.{Font, draw_text}

-- 0xFFFE91
abbrev pub background : ℕ
background = 16776849

-- One side: the percentage at which `bitmap` is no longer than `viewer`.
abbrev pub limit : ℕ → ℕ → ℕ → ℕ
limit viewer bitmap ratio =
    let k : ℕ = viewer * 100 / bitmap in
    if ltb viewer bitmap then (if ltb ratio k then ratio else k) else ratio

-- `ratio`
unfoldable pub fit : Screen → Screen → ℕ
fit viewer bitmap = limit viewer.h bitmap.h (limit viewer.w bitmap.w 100)

unfoldable pub show_picture : Screen → Screen → Screen
show_picture viewer bitmap =
    let image : Screen = scale (fit viewer bitmap) bitmap in
    draw_at image ((viewer.w - image.w) / 2) ((viewer.h - image.h) / 2) (fill background viewer)

module _ {S : Type 0} (read_buffer : Reader S → Bool × Reader S) where
  -- The loop that fills `szContent`: the cells left.
  unfoldable pub content_loop : ℕ → Reader S → List ℕ
  content_loop zero r = []
  content_loop (suc n) r =
      let out : Option ℕ × Reader S = current read_buffer r in
      let rest : List ℕ = content_loop n (step read_buffer out.1) in
      if at_end r then [] else (char16 out.0 ∷ rest)

  unfoldable pub content : Reader S → List ℕ
  content r = content_loop 4096 (step read_buffer r)

  unfoldable pub show_text : Font → Screen → Reader S → Option Screen
  show_text font viewer r = draw_text font 45 (content r) (fill background viewer)
