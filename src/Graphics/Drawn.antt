-- ===== src/Graphics/Drawn.antt =====
-- What filldemo draws.
use lavoro_l.Base.{
  ℕ, zero, suc, ◌+◌, ◌-◌, ◌*◌, ◌^◌, ◌≤◌, ◌<◌, ◌≡◌, ◌⊎◌, refl, inl, inr, none, some, Option,
  Option-cases, List, ◌∙◌, ap, arith, length, get_or,
}
use lavoro_l.Boxes.{color, fill_boxes}
use lavoro_l.Boxes.Board.{is_even_box, fill_boxes_lem}
use lavoro_l.Graphics.{
  Info, Query, answered, not_started, failed, GopMode, Gop, Drawing, info_of, mode_number, ask,
  ask_again, buffer_size, draw_mode, draw_loop, draw_boxes,
}

-- A protocol whose modes stay the same: each has its information, or is refused, once the protocol is
-- started.
pub record IsSteady (gop : Gop) (mode : GopMode) (answer : ℕ → Option Info) : Type 0 where
  pub mode_steady : (e : gop.Env) → gop.mode_of e ≡ some mode
  pub answers :
      (i : ℕ) (e : gop.Env)
      → ((gop.query_mode i e).0 ≡ not_started) ⊎ (info_of (gop.query_mode i e).0 ≡ answer i)
  pub starts :
      (i : ℕ) (e : gop.Env) → info_of (gop.query_mode i (gop.set_mode mode.mode e)).0 ≡ answer i

-- The first mode from `i` on that is not refused, among `n` modes.
abbrev pub first_mode : (ℕ → Option Info) → ℕ → ℕ → Option Info
first_mode answer zero i = none
first_mode answer (suc n) i = elim (answer i) [
  | none ↦ first_mode answer n (i + 1)
  | some info ↦ some info
]

abbrev drawn : (Info → Option Drawing) → Option Info → Option Drawing
drawn draw none = none
drawn draw (some info) = draw info

module _ {gop : Gop} {mode : GopMode} {answer : ℕ → Option Info}
    (s : IsSteady gop mode answer) where
  ask-again :
      (i : ℕ) (out : Query × gop.Env)
      → (out.0 ≡ not_started) ⊎ (info_of out.0 ≡ answer i)
      → info_of (ask_again gop i out).0 ≡ answer i
  ask-again i (answered info, e) (inl h) = absurd (cc)
  ask-again i (answered info, e) (inr h) = h
  ask-again i (failed, e) (inl h) = absurd (cc)
  ask-again i (failed, e) (inr h) = h
  ask-again i (not_started, e) h =
      ap (λ m. info_of (gop.query_mode i (gop.set_mode (mode_number m) e)).0) (s.mode_steady e)
      ∙ s.starts i e

  draw_loop-first :
      (allocate : ℕ → Option (List ℕ)) (n i : ℕ) (e : gop.Env)
      → (draw_loop gop allocate n i e).0 ≡ drawn (draw_mode gop allocate) (first_mode answer n i)
  unfolding draw_loop
  draw_loop-first allocate zero i e = refl
  draw_loop-first allocate (suc n) i e =
      let k = ask-again i (gop.query_mode i e) (s.answers i e) in
      elim (Option-cases (answer i)) [
        | inl refused ↦
            rw (k ∙ refused, draw_loop)
              (rw (refused, first_mode) (draw_loop-first allocate n (i + 1) (ask gop i e).1))
        | inr (info, given) ↦ rw (k ∙ given, draw_loop) (rw (given, first_mode) refl)
      ]

  draw_mode-allocated :
      (allocate : ℕ → Option (List ℕ)) (info : Info) (cells : List ℕ)
      → info.vertical * info.horizontal * 4 < 2 ^ 32
      → allocate (info.vertical * info.horizontal * 4) ≡ some cells
      → draw_mode gop allocate info
        ≡ some (record {
          width = info.horizontal;
          height = info.vertical;
          pixels = fill_boxes info.horizontal info.vertical cells;
        })
  unfolding draw_mode
  draw_mode-allocated allocate info cells small got =
      let whole : buffer_size gop allocate info ≡ info.vertical * info.horizontal * 4 =
        omega arith in
      rw (ap allocate whole ∙ got, draw_mode) refl

  -- filldemo on modes that stay the same, where the buffer of the first mode from the current one on
  -- that is not refused has fewer than 2 ^ 32 bytes and is allocated: a picture of that mode's size is
  -- drawn, and every pixel of it has its colour on the board.
  pub draw_boxes_lem :
      (allocate : ℕ → Option (List ℕ)) (e : gop.Env) (info : Info) (cells : List ℕ) (a b : ℕ)
      → first_mode answer (mode.max_mode - mode.mode) mode.mode ≡ some info
      → info.vertical * info.horizontal * 4 < 2 ^ 32
      → allocate (info.vertical * info.horizontal * 4) ≡ some cells
      → info.vertical * info.horizontal ≤ length cells
      → a < info.horizontal
      → b < info.vertical
      → (picture : Drawing) × ((draw_boxes gop allocate e).0 ≡ some picture)
        × (picture.width ≡ info.horizontal)
        × (picture.height ≡ info.vertical)
        × (get_or picture.pixels (b * info.horizontal + a) 0 ≡ color (is_even_box a b))
  unfolding draw_boxes
  draw_boxes_lem allocate e info cells a b h small got enough la lb = (
    record {
      width = info.horizontal;
      height = info.vertical;
      pixels = fill_boxes info.horizontal info.vertical cells;
    },
    rw (s.mode_steady e, draw_boxes)
        (draw_loop-first allocate (mode.max_mode - mode.mode) mode.mode e
          ∙ ap (drawn (draw_mode gop allocate)) h
          ∙ draw_mode-allocated allocate info cells small got),
    refl,
    refl,
    fill_boxes_lem info.horizontal info.vertical a b cells la lb enough,
  )
