-- ===== src/Pyramids/Lines.antt =====
-- What `Pyramids_Main` prints, line after line over the same tables.
use lavoro_l.Base.{
  ℕ, ◌+◌, ◌-◌, ◌%◌, ◌≤◌, ◌≡◌, refl, some, List, [], ◌∷◌, ◌==◌, length, arith, if-else, ◌∙◌, inl,
  inr,
}
use lavoro_l.Pyramids.{modulus, Memo, print_counts}
use lavoro_l.Pyramids.Count.{count}
use lavoro_l.Pyramids.Tables.{Only, f-Counted}

-- The number of trees of a whole line.
abbrev pub line_count : List ℕ → ℕ
line_count line = count line 0 (length line - 1) % modulus

abbrev pub line_counts : List (List ℕ) → List ℕ
line_counts [] = []
line_counts (line ∷ lines) = line_count line ∷ line_counts lines

abbrev pub AreNonempty : List (List ℕ) → Type 0
AreNonempty [] = Unit {0}
AreNonempty (line ∷ lines) = (1 ≤ length line) × AreNonempty lines

-- No mark above the number of the last line.
abbrev pub IsMarkedUpTo : ℕ → Memo → Type 0
IsMarkedUpTo mark m = (l r : ℕ) → m.marks l r ≤ mark

Only-IsMarkedUpTo :
    (text : List ℕ) (mark : ℕ) (m m' : Memo)
    → IsMarkedUpTo mark m
    → Only text (mark + 1) m m'
    → IsMarkedUpTo (mark + 1) m'
Only-IsMarkedUpTo text mark m m' h only l r = elim (only l r) [
  | inl same ↦ let low = h l r in omega arith
  | inr new ↦ omega arith
]

-- For every line that is not empty the program prints the number of trees that it walks around, by the
-- plain recurrence and modulo 1000000000, whatever the tables hold of earlier lines; the fuel, the
-- length of the line and one, is enough.
pub print_counts_lem :
    (lines : List (List ℕ)) (mark : ℕ) (m : Memo)
    → IsMarkedUpTo mark m
    → AreNonempty lines
    → print_counts mark lines m ≡ some (line_counts lines)
unfolding print_counts
print_counts_lem [] mark m h n = refl
print_counts_lem (line ∷ lines) mark m h (some_char, n) =
    let run =
      f-Counted line (mark + 1) (length line + 1) (length line) 0 (length line - 1) m (omega arith)
        (omega arith) (omega arith) (λ l r marked short. let low = h l r in absurd (omega arith)) in
    if-else (length line == 0) _ _ (ground arith)
    ∙ rw
        (
          run.returns,
          print_counts_lem lines (mark + 1) run.memo
              (Only-IsMarkedUpTo line mark m run.memo h run.only) n,
        )
        refl
