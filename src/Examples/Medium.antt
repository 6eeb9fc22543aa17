-- ===== src/Examples/Medium.antt =====
-- A medium in memory: a file moved by mv, copied by cp over a longer one, extended by addline and
-- printed by cat, and the handles that are open afterwards.
use lavoro_l.Base.{
  ℕ, ◌≡◌, ◌≢◌, refl, ap, Option, none, some, List, [], ◌∷◌, arith, length, get_or, replicate,
  if◌then◌else◌,
}
use lavoro_l.Console.{Action, resolve}
use lavoro_l.Console.Dispatch.{same}
use lavoro_l.Explorer.{join_path}
use lavoro_l.Disk.Commands.{Outcome, finished, cat_file}
use lavoro_l.Disk.AddedLine.{addline_cells, run_line-addline}
use lavoro_l.Disk.Shown.{cat_file_lem}
use lavoro_l.Transfer.Show.{flatten}
use lavoro_l.Disk.Lines.{run_line, run_line-mv, run_line-cp}
use lavoro_l.Examples.Keys.{comparing, comparing-IsComparing}
use lavoro_l.Examples.Drive.{Drive, drive, lawful}

-- \A with two bytes, and \B with three.
abbrev full : Drive
full = record {
  files = λ q.
      if same q (92 ∷ 65 ∷ [])
      then some (7 ∷ 8 ∷ [])
      else if same q (92 ∷ 66 ∷ [])
      then some (1 ∷ 2 ∷ 3 ∷ [])
      else none;
  open_now = 4;
}

abbrev cells : List ℕ
cells = replicate 128 0

abbrev nothing_else : Action → Drive → Option (Outcome Drive)
nothing_else a d = some (finished d)

apart_paths : ◌≢◌ {A = List ℕ} (92 ∷ 66 ∷ []) (92 ∷ 65 ∷ [])
apart_paths e = omega (arith, ap (λ (q : List ℕ). get_or q 1 0) e)

abbrev elsewhere : List ℕ
elsewhere = 92 ∷ 67 ∷ 67 ∷ []

-- mv A B and cp A B, in the root
run_line-mv_example :
    (d' : Drive) × (run_line drive cells cells 3 nothing_else comparing
        (92 ∷ [])
        (109 ∷ 118 ∷ 32 ∷ 65 ∷ 32 ∷ 66 ∷ 0 ∷ [])
        full
      ≡ some (finished d'))
    × (d'.files (92 ∷ 66 ∷ []) ≡ some (7 ∷ 8 ∷ 3 ∷ []))
    × (d'.files (92 ∷ 65 ∷ []) ≡ none)
    × (d'.files elsewhere ≡ none)
unfolding resolve join_path
run_line-mv_example =
    run_line-mv lawful cells cells 3 nothing_else comparing (92 ∷ []) (65 ∷ []) (66 ∷ []) [] full
      (7 ∷ 8 ∷ []) elsewhere comparing-IsComparing (λ e. omega arith, λ e. omega arith, tt)
      (λ e. omega arith, λ e. omega arith, tt) (omega arith) (omega arith) refl refl apart_paths
      refl (omega arith, (omega arith, tt)) (omega arith) (λ e. omega (arith, ap length e))
      (λ e. omega (arith, ap length e))

run_line-cp_example :
    (d' : Drive) × (run_line drive cells cells 3 nothing_else comparing
        (92 ∷ [])
        (99 ∷ 112 ∷ 32 ∷ 65 ∷ 32 ∷ 66 ∷ 0 ∷ [])
        full
      ≡ some (finished d'))
    × (d'.files (92 ∷ 66 ∷ []) ≡ some (7 ∷ 8 ∷ 3 ∷ []))
    × (d'.files (92 ∷ 65 ∷ []) ≡ some (7 ∷ 8 ∷ []))
    × (d'.files elsewhere ≡ none)
unfolding resolve join_path
run_line-cp_example =
    run_line-cp lawful cells cells 3 nothing_else comparing (92 ∷ []) (65 ∷ []) (66 ∷ []) [] full
      (7 ∷ 8 ∷ []) elsewhere comparing-IsComparing (λ e. omega arith, λ e. omega arith, tt)
      (λ e. omega arith, tt) (omega arith) (omega arith) refl refl apart_paths refl
      (omega arith, (omega arith, tt)) (omega arith) (λ e. omega (arith, ap length e))
      (λ e. omega (arith, ap length e))

-- addline A and a text of two letters
run_line-addline_example :
    (d' : Drive) × (run_line drive cells cells 3 nothing_else comparing
        (92 ∷ [])
        (addline_cells (65 ∷ 32 ∷ 72 ∷ 105 ∷ 0 ∷ []))
        full
      ≡ some (finished d'))
    × (d'.files (92 ∷ 65 ∷ []) ≡ some (7 ∷ 8 ∷ 72 ∷ 105 ∷ 13 ∷ 10 ∷ []))
    × (d'.files elsewhere ≡ none)
unfolding resolve join_path
run_line-addline_example =
    run_line-addline lawful cells cells 3 nothing_else comparing (92 ∷ []) (65 ∷ []) (72 ∷ 105 ∷ [])
      [] full elsewhere comparing-IsComparing (λ e. omega arith, λ e. omega arith, tt)
      (λ e. omega arith, (λ e. omega arith, tt)) (omega arith) refl refl (omega arith)
      (λ e. omega (arith, ap length e))

cat_file_lem_example :
    (ts : List (List ℕ)) × (d' : Drive) × (cat_file drive cells cells 3 (92 ∷ 65 ∷ []) full
      ≡ some (finished (ts, d')))
    × (flatten ts ≡ 7 ∷ 8 ∷ [])
    × (d'.files (92 ∷ 65 ∷ []) ≡ some (7 ∷ 8 ∷ []))
    × (d'.files elsewhere ≡ none)
cat_file_lem_example =
    cat_file_lem lawful cells cells 3 (92 ∷ 65 ∷ []) full (7 ∷ 8 ∷ []) elsewhere refl
      (λ e. omega arith) refl (λ e. omega arith, (λ e. omega arith, tt)) (omega arith)
      (λ e. omega (arith, ap length e))
