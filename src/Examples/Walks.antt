-- ===== src/Examples/Walks.antt =====
-- Walks around trees, and ants on two cities.
use lavoro_l.Base.{
  ℕ, ◌+◌, ◌*◌, ◌/◌, ◌≡◌, refl, Bool, true, false, Option, none, some, List, [], ◌∷◌, ltb, arith,
  map,
}
use lavoro_l.Pyramids.{Memo, print_counts}
use lavoro_l.Pyramids.Count.{count, trees}
use lavoro_l.Pyramids.Lines.{print_counts_lem}
use lavoro_l.AntTsp.{Doubles, Matrix, Ant, new_ant, reuse, walk}
use lavoro_l.AntTsp.Tour.{IsTour, All, new_ant-IsWalking}
use lavoro_l.AntTsp.Walk.{IsRound, starts, walk_lem}
use lavoro_l.AntTsp.Colony.{Setting, Colony, search, new_colony}
use lavoro_l.AntTsp.Colony.Result.{AreShorter, search_lem}

abbrev unmarked : Memo
unmarked = record { marks = λ l r. 0; results = λ l r. 0 }

-- ABABA and X
print_counts_lem_example :
    print_counts 0 ((65 ∷ 66 ∷ 65 ∷ 66 ∷ 65 ∷ []) ∷ (88 ∷ []) ∷ []) unmarked ≡ some (2 ∷ 1 ∷ [])
unfolding count trees
print_counts_lem_example =
    print_counts_lem ((65 ∷ 66 ∷ 65 ∷ 66 ∷ 65 ∷ []) ∷ (88 ∷ []) ∷ []) 0 unmarked
      (λ l r. omega arith) (omega arith, (omega arith, tt))

-- Numbers with a greatest one, `none`.
abbrev both : (ℕ → ℕ → ℕ) → Option ℕ → Option ℕ → Option ℕ
both f none b = none
both f (some a) none = none
both f (some a) (some b) = some (f a b)

abbrev above : Option ℕ → Option ℕ → Bool
above none b = true
above (some a) none = false
above (some a) (some b) = ltb b a

abbrev numbers : Doubles
numbers = record {
  Double = Option ℕ;
  zero_double = some 0;
  add = both (λ a b. a + b);
  multiply = both (λ a b. a * b);
  divide = both (λ a b. a / b);
  above = above;
}

abbrev ones : Matrix numbers
ones i j = some 1

abbrev two_ants : List (Ant numbers)
two_ants = new_ant numbers 0 ∷ new_ant numbers 1 ∷ []

walk_lem_example :
    (ants : List (Ant numbers)) × (walk numbers 3 2 ones ones ones (map (reuse numbers) two_ants)
      ≡ some ants)
    × All (IsRound numbers 2) ants
    × (starts numbers 2 ants ≡ 0 ∷ 1 ∷ [])
walk_lem_example =
    walk_lem numbers 2 3 ones ones ones two_ants
      (
        new_ant-IsWalking numbers 2 0 (omega arith),
        (new_ant-IsWalking numbers 2 1 (omega arith), tt),
      )
      (omega arith) (omega arith) (omega arith)

abbrev setting : Setting numbers
setting = record { rho = some 1; q = some 100; len = ones; eta = ones }

all_shorter : (ants : List (Ant numbers)) → AreShorter numbers 2 setting none ants
all_shorter [] = tt
all_shorter (ant ∷ ants) = (refl, all_shorter ants)

search_lem_example :
    (c : Colony numbers) × (search numbers setting 4 3 2 3 0 (new_colony numbers none (some 1) 2 2)
      ≡ some c)
    × IsTour 2 c.best.tour
search_lem_example =
    search_lem numbers 2 setting 4 3 3 2 none (some 1) (omega arith) (omega arith) (omega arith)
      (omega arith) (omega arith) (omega arith) (omega arith) (λ ants e. all_shorter ants)
