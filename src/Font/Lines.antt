-- ===== src/Font/Lines.antt =====
-- The loop of src/lfont.cpp and src/lfont.hpp over the lines of a file: `while (!Reader.AtEnd()) {
-- Reader.ReadLine(szLine); if (szLine[0]) … }`, with what is done to a line as a parameter.
use lavoro_l.Base.{
  ℕ, zero, suc, ◌<◌, ◌≡◌, refl, Bool, true, false, Option, none, some, List, [], ◌∷◌, ◌++◌,
  if◌then◌else◌, arith, length, length-append,
}
use lavoro_l.Reader.{Reader, line, underrun, at_end, read_line}
use lavoro_l.Reader.Source.{Source}
use lavoro_l.Reader.Pending.{Holds, live-pending, pending-end}
use lavoro_l.Reader.ReadLine.{loaded, read_line-crlf}
use lavoro_l.Console.Operands.{c_string-append}
use lavoro_l.Console.Batch.Script.{file_bytes, AreLines}
use lavoro_l.Transfer.{c_string}

-- `if (szLine[0])`
abbrev pub put_text : {A : Type 0} → (A → List ℕ → A) → A → List ℕ → A
put_text put a [] = a
put_text put a (c ∷ cs) = put a (c ∷ cs)

module _ {S A : Type 0} (read_buffer : Reader S → Bool × Reader S) (before fuel : ℕ)
    (put : A → List ℕ → A) where
  -- The rounds left; `none` also where a line leaves the buffer.
  unfoldable pub each_line : ℕ → A → Reader S → Option (A × Reader S)
  each_line zero a r = none
  each_line (suc n) a r =
      let rest : Option (A × Reader S) = elim (read_line read_buffer before fuel r) [
        | none ↦ none
        | some (out, r') ↦ elim out [
          | underrun ↦ none
          | line text ↦ each_line n (put_text put a (c_string (text ++ 0 ∷ []))) r'
        ]
      ] in
      if at_end r then some (a, r) else rest

-- The lines put one after the other.
abbrev pub put_lines : {A : Type 0} → (A → List ℕ → A) → A → List (List ℕ) → A
put_lines put a [] = a
put_lines put a (l ∷ ls) = put_lines put (put_text put a l) ls

module _ {S A : Type 0} {read_buffer : Reader S → Bool × Reader S} (src : Source read_buffer)
    (before fuel : ℕ) (put : A → List ℕ → A) where
  live-file_bytes :
      (l : List ℕ) (ls : List (List ℕ)) {r : Reader S}
      → Holds src.rest r (file_bytes (l ∷ ls))
      → at_end r ≡ false
  live-file_bytes [] ls {r} h = live-pending src.rest r h.left
  live-file_bytes (c ∷ l) ls {r} h = live-pending src.rest r h.left

  -- With more rounds than lines, and more fuel than bytes, the loop ends, and every line that is not
  -- empty was put once and in order.
  pub each_line-put_lines :
      (rounds : ℕ) (ls : List (List ℕ)) (a : A) {r : Reader S}
      → Holds src.rest r (file_bytes ls)
      → AreLines ls
      → length ls < rounds
      → length (file_bytes ls) < fuel
      → (r' : Reader S) × (each_line read_buffer before fuel put rounds a r
          ≡ some (put_lines put a ls, r'))
        × (at_end r' ≡ true)
  unfolding each_line
  each_line-put_lines zero ls a h t n e = absurd (omega arith)
  each_line-put_lines (suc rounds) [] a {r} h t n e =
      let over = pending-end src.rest h.valid h.loaded h.left in (r, rw over refl, over)
  each_line-put_lines (suc rounds) (l ∷ ls) a {r} h (text, one, t) n e =
      let run = read_line-crlf src before fuel l (file_bytes ls) (loaded h) one e in
      let rest =
        each_line-put_lines rounds ls (put_text put a l) run.2 t (omega arith)
          (omega (arith, length-append l (13 ∷ 10 ∷ file_bytes ls))) in
      (rest.0, rw (live-file_bytes l ls h, run.1, c_string-append l [] text) rest.1, rest.2)
