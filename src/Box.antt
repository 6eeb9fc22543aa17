-- ===== src/Box.antt =====
-- src/packages/ACM/Box.cpp: do six rectangles, given by their two sides, make up a box? `box` places the
-- rectangles on the six faces in every order, and `check` tries every way of turning them.
pub mod Loops
pub mod Shape
pub mod Found
use lavoro_l.Base.{
  ℕ, zero, suc, ◌+◌, ◌/◌, ◌%◌, ◌^◌, Bool, true, false, not, Option, none, some, List, [], ◌∷◌, ◌++◌,
  ◌==◌, if◌then◌else◌, get_or, set, replicate,
}

-- `n_max`
abbrev pub n_max : ℕ
n_max = 6

-- The row of `f` for one face: for each other face, the two sides that meet, or {-1, -1}.
abbrev pub edge : ℕ → ℕ → Option (ℕ × ℕ)
edge x y = some (x, y)

abbrev pub faces : List (List (Option (ℕ × ℕ)))
faces =
    (none ∷ edge 1 0 ∷ edge 0 0 ∷ edge 0 0 ∷ edge 1 1 ∷ none ∷ [])
    ∷ (edge 0 1 ∷ none ∷ edge 1 1 ∷ edge 1 1 ∷ none ∷ edge 0 0 ∷ [])
    ∷ (edge 0 0 ∷ edge 1 1 ∷ none ∷ none ∷ edge 1 0 ∷ edge 0 1 ∷ [])
    ∷ (edge 0 0 ∷ edge 1 1 ∷ none ∷ none ∷ edge 1 0 ∷ edge 0 1 ∷ [])
    ∷ (edge 1 1 ∷ none ∷ edge 0 1 ∷ edge 0 1 ∷ none ∷ edge 1 0 ∷ [])
    ∷ (none ∷ edge 0 0 ∷ edge 1 0 ∷ edge 1 0 ∷ edge 0 1 ∷ none ∷ [])
    ∷ []

-- The loops that return 0, or 1, from their body: the rounds left, and the counter.
unfoldable pub all_from : ℕ → ℕ → (ℕ → Bool) → Bool
all_from zero i f = true
all_from (suc n) i f = let rest = all_from n (i + 1) f in if f i then rest else false

unfoldable pub any_from : ℕ → ℕ → (ℕ → Bool) → Bool
any_from zero i f = false
any_from (suc n) i f = let rest = any_from n (i + 1) f in if f i then true else rest

-- The array `a`: two sides for each rectangle.
abbrev pub Sides : Type 0
Sides = List (ℕ × ℕ)

abbrev pub side : Sides → ℕ → ℕ → ℕ
side a n k = let s = get_or a n (0, 0) in if k == 0 then s.0 else s.1

-- `x ^ ((m >> i) & 1)` for a bit `x`
abbrev pub turned : ℕ → ℕ → ℕ → ℕ
turned m i x = (x + m / 2 ^ i % 2) % 2

unfoldable pub meets : Sides → List ℕ → ℕ → ℕ → ℕ → Bool
meets a q m i j = elim (get_or (get_or faces i []) j none) [
  | none ↦ true
  | some (x, y) ↦ side a (get_or q i 0) (turned m i x) == side a (get_or q j 0) (turned m j y)
]

unfoldable pub check : Sides → List ℕ → ℕ → Bool
check a q m = all_from n_max 0 (λ i. all_from n_max 0 (λ j. meets a q m i j))

-- `box`: the places left, the rectangles placed as marked in `e`, and their order so far. The call at
-- six copies `p` to `q`.
unfoldable pub box : Sides → ℕ → List Bool → List ℕ → Bool
box a zero e p = any_from 64 0 (check a p)
box a (suc n) e p = any_from n_max 0 (λ i.
    let rest = box a n (set e i true) (p ++ i ∷ []) in if get_or e i true then false else rest)

-- `Box_Main`, from the six sides read
unfoldable pub possible : Sides → Bool
possible a = box a n_max (replicate n_max false) []
