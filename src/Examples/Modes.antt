-- ===== src/Examples/Modes.antt =====
-- filldemo on a protocol that has to be started and refuses its first mode.
use lavoro_l.Base.{
  ℕ, zero, suc, ◌≡◌, ◌⊎◌, inl, inr, refl, true, Option, none, some, arith, get_or, replicate,
}
use lavoro_l.Boxes.{red}
use lavoro_l.Graphics.{
  red_green_blue, Info, Query, answered, not_started, failed, GopMode, Gop, Drawing, info_of,
  draw_boxes,
}
use lavoro_l.Graphics.Drawn.{IsSteady, draw_boxes_lem}

abbrev small : Info
small = record { horizontal = 4; vertical = 2; format = red_green_blue; pitch = 4 }

abbrev modes : ℕ → Option Info
modes zero = none
modes (suc i) = some small

abbrev reply : Option Info → Query
reply none = failed
reply (some info) = answered info

-- The protocol is started once its state is not 0.
abbrev query : ℕ → ℕ → Query
query i zero = not_started
query i (suc e) = reply (modes i)

abbrev current : GopMode
current = record { max_mode = 3; mode = 0; info = small }

abbrev hardware : Gop
hardware = record {
  Env = ℕ;
  mode_of = λ e. some current;
  query_mode = λ i e. (query i e, e);
  set_mode = λ i e. 1;
  same = λ a b. true;
}

info_of-reply : (o : Option Info) → info_of (reply o) ≡ o
info_of-reply none = refl
info_of-reply (some info) = refl

query_answers : (i e : ℕ) → (query i e ≡ not_started) ⊎ (info_of (query i e) ≡ modes i)
query_answers i zero = inl refl
query_answers i (suc e) = inr (info_of-reply (modes i))

abbrev steady : IsSteady hardware current modes
steady = record {
  mode_steady = λ e. refl;
  answers = query_answers;
  starts = λ i e. info_of-reply (modes i);
}

draw_boxes_lem_example :
    (picture : Drawing) × ((draw_boxes hardware (λ size. some (replicate 8 0)) 0).0 ≡ some picture)
    × (picture.width ≡ 4)
    × (picture.height ≡ 2)
    × (get_or picture.pixels 7 0 ≡ red)
draw_boxes_lem_example =
    draw_boxes_lem steady (λ size. some (replicate 8 0)) 0 small (replicate 8 0) 3 1 refl
      (omega arith) refl (omega arith) (omega arith) (omega arith)
