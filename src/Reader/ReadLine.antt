-- ===== src/Reader/ReadLine.antt =====
-- `LReader::ReadLine`: what line it takes, with its end in CR, LF or the end of the input.
use mathlib.Core.List.{reverse, reverse_aux, reverse-reverse, reverse-append}
use lavoro_l.Base.{
  ℕ, zero, suc, ◌<◌, ◌≡◌, ◌≢◌, refl, Bool, false, some, List, [], ◌∷◌, ◌++◌, ◌==◌, arith, length,
  if◌then◌else◌, inl, inr, Bool-cases, sym, ap, ◌∙◌,
}
use lavoro_l.Reader.{
  Reader, line, underrun, at_end, current, step, read_line_loop, read_line, finish_line,
}
use lavoro_l.Reader.Source.{Source, IsValid}
use lavoro_l.Reader.Pending.{
  pending, Holds, current-IsLoaded, next-IsLoaded, live-pending, pending-end, current-spent,
  current-spent_value,
}

-- The bytes before the first LF, and those behind it.
abbrev pub first_line : List ℕ → List ℕ
first_line [] = []
first_line (b ∷ bs) = if b == 10 then [] else (b ∷ first_line bs)

abbrev pub later_lines : List ℕ → List ℕ
later_lines [] = []
later_lines (b ∷ bs) = if b == 10 then bs else later_lines bs

abbrev stacked : List ℕ → List ℕ → List ℕ
stacked cells [] = cells
stacked cells (b ∷ bs) = if b == 10 then cells else stacked (b ∷ cells) bs

module _ {S : Type 0} {read_buffer : Reader S → Bool × Reader S} (src : Source read_buffer) where
  read_line_loop-Holds :
      (bs : List ℕ) (fuel : ℕ) (cells : List ℕ) {r : Reader S}
      → Holds src.rest r bs
      → length bs < fuel
      → (r' : Reader S) × (read_line_loop read_buffer fuel cells r ≡ some (stacked cells bs, r'))
        × Holds src.rest r' (later_lines bs)
  unfolding read_line_loop
  read_line_loop-Holds bs zero cells h l = absurd (omega arith)
  read_line_loop-Holds [] (suc fuel) cells {r} h l =
      (r, rw (pending-end src.rest h.valid h.loaded h.left) refl, h)
  read_line_loop-Holds (b ∷ bs) (suc fuel) cells {r} h l =
      rw
        (
          live-pending src.rest r h.left,
          current-IsLoaded src h.valid h.loaded,
          h.left,
          current-IsLoaded src h.valid h.loaded,
          h.left,
        )
        (elim (Bool-cases (b == 10)) [
          | inl stop ↦ rw stop (step read_buffer r, refl, rest)
          | inr go ↦ rw go (read_line_loop-Holds bs fuel (b ∷ cells) rest (omega arith))
        ])
    where
      rest : Holds src.rest (step read_buffer r) bs
      rest = rw h.left at (next-IsLoaded src h.valid h.loaded)

-- No LF among the bytes.
abbrev pub IsOneLine : List ℕ → Type 0
IsOneLine [] = Unit {0}
IsOneLine (b ∷ bs) = (b ≢ 10) × IsOneLine bs

stacked-append :
    (l cells bs : List ℕ) → IsOneLine l → stacked cells (l ++ bs) ≡ stacked (reverse_aux l cells) bs
stacked-append [] cells bs o = refl
stacked-append (b ∷ l) cells bs o = ground (arith, stacked-append l (b ∷ cells) bs)

later_lines-append : (l bs : List ℕ) → IsOneLine l → later_lines (l ++ bs) ≡ later_lines bs
later_lines-append [] bs o = refl
later_lines-append (b ∷ l) bs o = ground (arith, later_lines-append l bs)

finish_line-reverse :
    (before c : ℕ) (l : List ℕ)
    → finish_line before (c ∷ reverse_aux l []) ≡ line (if c == 13 then l else l ++ c ∷ [])
unfolding finish_line
finish_line-reverse before c l = elim (Bool-cases (c == 13)) [
  | inl cr ↦ rw cr (ap line (reverse-reverse l))
  | inr other ↦
      rw other
        (ap line (ap reverse (sym (reverse-append l (c ∷ []))) ∙ reverse-reverse (l ++ c ∷ [])))
]

-- A reader from which a line can be read: a byte is at hand, or `Next` was not called yet and there
-- is one to fetch.
pub data IsReady {S : Type 0} (rest : S → List ℕ) (r : Reader S) (bs : List ℕ) : Type 0 where
  loaded : Holds rest r bs → IsReady rest r bs
  fresh :
      IsValid r
      → at_end r ≡ false
      → r.current ≡ r.size
      → bs ≢ []
      → pending rest r ≡ bs
      → IsReady rest r bs

module _ {S : Type 0} {read_buffer : Reader S → Bool × Reader S} (src : Source read_buffer) where
  read_line_loop-IsReady :
      (bs : List ℕ) (fuel : ℕ) {r : Reader S}
      → IsReady src.rest r bs
      → length bs < fuel
      → (r' : Reader S) × (read_line_loop read_buffer fuel [] r ≡ some (stacked [] bs, r'))
        × Holds src.rest r' (later_lines bs)
  unfolding read_line_loop
  read_line_loop-IsReady bs fuel (loaded h) l = read_line_loop-Holds src bs fuel [] h l
  read_line_loop-IsReady bs zero (fresh v live e ne p) l = absurd (omega arith)
  read_line_loop-IsReady [] (suc fuel) (fresh v live e ne p) l = absurd (ne refl)
  read_line_loop-IsReady (b ∷ bs) (suc fuel) {r} (fresh v live e ne p) l =
      let h : Holds src.rest (current read_buffer r).1 (b ∷ bs) =
        rw p at (current-spent src v live e) in
      let again = read_line_loop-Holds src (b ∷ bs) (suc fuel) [] h l in
      (again.0, same h ∙ again.1, again.2)
    where
      same :
          Holds src.rest (current read_buffer r).1 (b ∷ bs)
          → read_line_loop read_buffer (suc fuel) [] r
            ≡ read_line_loop read_buffer (suc fuel) [] (current read_buffer r).1
      same h =
          rw
            (
              live,
              live-pending src.rest (current read_buffer r).1 h.left,
              current-spent_value src v live e p,
              current-IsLoaded src h.valid h.loaded,
              current-IsLoaded src h.valid h.loaded,
              h.left,
            )
            refl

  read_line-eq :
      (before fuel : ℕ) (r : Reader S) {r' : Reader S} {cells : List ℕ}
      → read_line_loop read_buffer fuel [] r ≡ some (cells, r')
      → read_line read_buffer before fuel r ≡ some (finish_line before cells, r')
  unfolding read_line
  read_line-eq before fuel r e = rw (e, read_line)

  -- A line that ends in CR LF is read as its text, whatever the memory below the buffer holds, and
  -- the reader is left before what follows. The fuel is any number above that of the bytes left.
  pub read_line-crlf :
      (before fuel : ℕ) (l bs : List ℕ) {r : Reader S}
      → IsReady src.rest r (l ++ 13 ∷ 10 ∷ bs)
      → IsOneLine l
      → length (l ++ 13 ∷ 10 ∷ bs) < fuel
      → (r' : Reader S) × (read_line read_buffer before fuel r ≡ some (line l, r'))
        × Holds src.rest r' bs
  read_line-crlf before fuel l bs {r} h o e =
      let run = read_line_loop-IsReady (l ++ 13 ∷ 10 ∷ bs) fuel h e in
      (
        run.0,
        read_line-eq before fuel r (run.1 ∙ ap (λ t. some (t, run.0)) (stacked-append l [] _ o))
            ∙ ap (λ t. some (t, run.0)) (finish_line-reverse before 13 l),
        rw (later_lines-append l (13 ∷ 10 ∷ bs) o) at run.2,
      )

  -- A line that ends in LF alone, is not empty and whose last byte `c` is no CR is read as its text,
  -- whatever the memory below the buffer holds, and the reader is left before what follows.
  read_line-lf :
      (before fuel : ℕ) (l : List ℕ) (c : ℕ) (bs : List ℕ) {r : Reader S}
      → IsReady src.rest r (l ++ c ∷ 10 ∷ bs)
      → IsOneLine (c ∷ l)
      → c ≢ 13
      → length (l ++ c ∷ 10 ∷ bs) < fuel
      → (r' : Reader S) × (read_line read_buffer before fuel r ≡ some (line (l ++ c ∷ []), r'))
        × Holds src.rest r' bs
  read_line-lf before fuel l c bs {r} h (nc, o) cr e =
      let run = read_line_loop-IsReady (l ++ c ∷ 10 ∷ bs) fuel h e in
      let lf : (c == 10) ≡ false = ground arith in
      let no_cr : (c == 13) ≡ false = ground arith in
      (
        run.0,
        read_line-eq before fuel r
              (run.1 ∙ ap (λ t. some (t, run.0)) (stacked-append l [] _ o ∙ rw lf refl))
            ∙ ap (λ t. some (t, run.0)) (finish_line-reverse before c l ∙ rw no_cr refl),
        rw lf at (rw (later_lines-append l (c ∷ 10 ∷ bs) o) at run.2),
      )

  -- Where the next byte is a LF and the cell below the caller's buffer happens to hold a CR, the
  -- terminator is written to that cell: the empty line leaves the buffer.
  pub read_line_underrun :
      (fuel : ℕ) (bs : List ℕ) {r : Reader S}
      → IsReady src.rest r (10 ∷ bs)
      → length (10 ∷ bs) < fuel
      → (r' : Reader S) × (read_line read_buffer 13 fuel r ≡ some (underrun, r'))
  unfolding finish_line
  read_line_underrun fuel bs {r} h e =
      let run = read_line_loop-IsReady (10 ∷ bs) fuel h e in (run.0, read_line-eq 13 fuel r run.1)
