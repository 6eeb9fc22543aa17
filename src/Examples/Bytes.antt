-- ===== src/Examples/Bytes.antt =====
-- Readers, writers and the loops between them, on a file in memory.
use lavoro_l.Base.{ℕ, ◌+◌, ◌≡◌, ◌≢◌, refl, some, List, [], ◌∷◌, arith}
use lavoro_l.Reader.{Reader, line, underrun, read_line}
use lavoro_l.Reader.Source.{Filled}
use lavoro_l.Reader.Pending.{Holds}
use lavoro_l.Reader.ReadLine.{read_line-crlf, read_line_underrun}
use lavoro_l.File.{read_buffer}
use lavoro_l.File.Source.{read_buffer-Filled}
use lavoro_l.Examples.Memory.{memory, reliable, file, opened, opened-IsReady}

nonzero : (n : ℕ) → n + 1 ≢ 0
nonzero n e = omega arith

read_line-crlf_example :
    (r' : Reader (List ℕ)) × (read_line (read_buffer memory) 0 5 (opened (65 ∷ 13 ∷ 10 ∷ 66 ∷ []))
      ≡ some (line (65 ∷ []), r'))
    × Holds file.rest r' (66 ∷ [])
read_line-crlf_example =
    read_line-crlf file 0 5 (65 ∷ []) (66 ∷ []) (opened-IsReady 65 (13 ∷ 10 ∷ 66 ∷ []))
      (λ e. omega arith, tt) (omega arith)

read_line_underrun_example :
    (r' : Reader (List ℕ)) × (read_line (read_buffer memory) 13 3 (opened (10 ∷ 65 ∷ []))
      ≡ some (underrun, r'))
read_line_underrun_example =
    read_line_underrun file 3 (65 ∷ []) (opened-IsReady 10 (65 ∷ [])) (omega arith)

read_buffer-Filled_example :
    Filled (λ h. h) (opened (5 ∷ 6 ∷ [])) (read_buffer memory (opened (5 ∷ 6 ∷ [])))
read_buffer-Filled_example = read_buffer-Filled reliable (opened (5 ∷ 6 ∷ [])) refl refl
