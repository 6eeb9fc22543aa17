-- ===== src/Examples/Boxes.antt =====
-- Six equal squares make up a box.
use lavoro_l.Base.{ℕ, ◌<◌, ◌≡◌, ◌↔◌, refl, true, List, length, Distinct, replicate}
use lavoro_l.Box.{n_max, Sides, possible, box, check, meets, any_from, all_from}
use lavoro_l.Box.Found.{AreRectangles, possible_lem}
use lavoro_l.Box.Shape.{IsBox}

abbrev cube : Sides
cube = replicate 6 (2, 2)

possible_lem_example : (possible cube ≡ true) ↔ (
    (q : List ℕ) × (m : ℕ) × (length q ≡ n_max)
    × AreRectangles q
    × Distinct q
    × (m < 64)
    × (width : ℕ) × (height : ℕ) × (depth : ℕ) × IsBox cube q m width height depth)
possible_lem_example = possible_lem cube

six_squares : possible cube ≡ true
unfolding possible box check meets any_from all_from
six_squares = refl
