-- ===== src/Pyramids.antt =====
-- src/packages/ACM/Pyramids.cpp: in how many ways is a line the walk around a tree? `F` counts them for
-- the characters from `l` to `r`, modulo 1000000000, and keeps each count in the tables `P` and `R`: a
-- count of this line is marked by the line's number, `MarkNum`. The tables are functions of their two
-- indices.
pub mod Count
pub mod Tables
pub mod Lines
use lavoro_l.Base.{
  ℕ, zero, suc, ◌+◌, ◌-◌, ◌*◌, ◌%◌, Bool, ◌&&◌, Option, none, some, List, [], ◌∷◌, ◌==◌,
  if◌then◌else◌, get_or, length,
}

abbrev pub modulus : ℕ
modulus = 1000000000

abbrev pub Table : Type 0
Table = ℕ → ℕ → ℕ

-- `P` and `R`
pub record Memo : Type 0 where
  pub marks : Table
  pub results : Table

abbrev pub put : Table → ℕ → ℕ → ℕ → Table
put t l r v a b = if (a == l) && (b == r) then v else t a b

-- `P[l][r] = MarkNum, R[l][r] = 0`
abbrev pub begin : ℕ → ℕ → ℕ → Memo → Memo
begin mark l r m = record { marks = put m.marks l r mark; results = put m.results l r 0 }

-- `R[l][r] = (R[l][r] + v) % 1000000000`
abbrev pub add_result : ℕ → ℕ → ℕ → Memo → Memo
add_result l r v m = record m { results = put m.results l r ((m.results l r + v) % modulus) }

module _ (text : List ℕ) (mark : ℕ) where
  abbrev char : ℕ → ℕ
  char i = get_or text i 0

  -- The body of the loop, with the two calls of `F`.
  abbrev pub add_split : (ℕ → ℕ → Memo → Option (ℕ × Memo)) → ℕ → ℕ → ℕ → Memo → Option Memo
  add_split rec l r i m =
      if char i == char l
      then elim (rec (l + 1) (i - 1) m) [
        | none ↦ none
        | some (a, m1) ↦ elim (rec i r m1) [
          | none ↦ none
          | some (b, m2) ↦ some (add_result l r (a * b) m2)
        ]
      ]
      else some m

  -- The loop over `i`: the rounds left, and `i`.
  unfoldable pub split_loop :
      (ℕ → ℕ → Memo → Option (ℕ × Memo)) → ℕ → ℕ → ℕ → ℕ → Memo → Option Memo
  split_loop rec l r zero i m = some m
  split_loop rec l r (suc n) i m = elim (add_split rec l r i m) [
    | none ↦ none
    | some m' ↦ split_loop rec l r n (i + 1) m'
  ]

  -- `F`, on fuel
  unfoldable pub f : ℕ → ℕ → ℕ → Memo → Option (ℕ × Memo)
  f zero l r m = none
  f (suc fuel) l r m =
      let loop : Option Memo = split_loop (f fuel) l r (r - l) (l + 1) (begin mark l r m) in
      if l == r
      then some (1, m)
      else if m.marks l r == mark
      then some (m.results l r, m)
      else elim loop [ none ↦ none | some m' ↦ some (m'.results l r, m') ]

-- `Pyramids_Main`, for the lines up to the first empty one: what is printed for each. The tables are
-- kept from line to line.
unfoldable pub print_counts : ℕ → List (List ℕ) → Memo → Option (List ℕ)
print_counts mark [] m = some []
print_counts mark (line ∷ lines) m =
    let out : Option (List ℕ) = elim (f line (mark + 1) (length line + 1) 0 (length line - 1) m) [
      | none ↦ none
      | some (n, m') ↦ elim (print_counts (mark + 1) lines m') [
        | none ↦ none
        | some ns ↦ some (n ∷ ns)
      ]
    ] in
    if length line == 0 then some [] else out
