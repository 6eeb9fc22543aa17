-- ===== src/Examples/Scripts.antt =====
-- A batch file of two lines, an address and a port.
use lavoro_l.Base.{ℕ, ◌≡◌, refl, List, [], ◌∷◌, ◌++◌, arith}
use lavoro_l.Console.Address.{remote}
use lavoro_l.Console.Address.Parse.{dotted, decimal, remote-decimal}

-- cd A
abbrev cd_line : List ℕ
cd_line = 99 ∷ 100 ∷ 32 ∷ 65 ∷ []

abbrev quit_line : List ℕ
quit_line = 113 ∷ 117 ∷ 105 ∷ 116 ∷ []

abbrev later_bytes : List ℕ
later_bytes = 100 ∷ 32 ∷ 65 ∷ 13 ∷ 10 ∷ 113 ∷ 117 ∷ 105 ∷ 116 ∷ 13 ∷ 10 ∷ []

-- connect 192.168.0.1 8080, with an old port 80.
abbrev parts : List (ℕ × ℕ)
parts = (192, 46) ∷ (168, 46) ∷ (0, 46) ∷ (1, 32) ∷ []

remote-decimal_example :
    remote 80
      ((99 ∷ 111 ∷ 110 ∷ 110 ∷ 101 ∷ 99 ∷ 116 ∷ 32 ∷ []) ++ dotted parts (decimal 8080 ++ 0 ∷ []))
    ≡ (192 ∷ 168 ∷ 0 ∷ 1 ∷ [], 8080)
remote-decimal_example =
    remote-decimal 80 8080 0 parts (99 ∷ 111 ∷ 110 ∷ 110 ∷ 101 ∷ 99 ∷ 116 ∷ 32 ∷ []) [] refl refl
      (omega arith, refl, (omega arith, refl, (omega arith, refl, (omega arith, refl, tt))))
      (omega arith) refl
