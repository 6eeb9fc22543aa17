-- ===== src/Examples/Setup.antt =====
-- The windows of a screen, and a volume chosen from three.
use lavoro_l.Base.{ℕ, ◌≡◌, refl, some, List, [], ◌∷◌, arith, false, take}
use lavoro_l.Explorer.{Platform, Explorer, running, f2, start, run, draw}
use lavoro_l.Explorer.Volumes.{IsReadBack, to_right, run-volume}
use lavoro_l.Explorer.Windows.{layout}
use lavoro_l.Explorer.Windows.Places.{LiesIn, layout-LiesIn}

abbrev first_code : List ℕ → ℕ
first_code [] = 0
first_code (c ∷ cs) = c

-- A number is one character.
abbrev three_volumes : Platform
three_volumes = record {
  volumes = 3;
  list_directory = λ v path. record { name = 65 ∷ []; directory = false } ∷ [];
  decimal = λ n. n ∷ [];
  atoi = first_code;
}

abbrev reads : IsReadBack three_volumes
reads = record { atoi_decimal = λ n small. refl }

run-volume_example :
    (e : Explorer) × (run three_volumes 4 (f2 ∷ to_right 2) (start [] []) ≡ running e)
    × (e.volume ≡ some 2)
    × (e.path ≡ 92 ∷ [])
    × (e.page ≡ 1)
    × ((e' : Explorer) × (draw three_volumes e ≡ running e')
        × (e'.count ≡ 1)
        × (take e'.count e'.entries ≡ record { name = 65 ∷ []; directory = false } ∷ []))
run-volume_example = run-volume reads 4 2 [] [] (omega arith) (omega arith)

layout-LiesIn_example :
    LiesIn 800 0 100 (layout 800 600 400 100).logo
    × LiesIn 800 0 100 (layout 800 600 400 100).time
    × LiesIn 800 104 600 (layout 800 600 400 100).page
layout-LiesIn_example =
    layout-LiesIn 800 600 400 100 (omega arith) (omega arith) (omega arith) (omega arith)
