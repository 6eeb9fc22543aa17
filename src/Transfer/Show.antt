-- ===== src/Transfer/Show.antt =====
-- What cat prints.
use lavoro_l.Base.{
  ℕ, zero, suc, ◌<◌, ◌≡◌, ◌≢◌, refl, Bool, false, some, List, [], ◌∷◌, ◌++◌, ◌∙◌, sym, ap, arith,
  length, ◌==◌, append-nil, append_assoc, length-append, Bool-cases, inl, inr,
}
use lavoro_l.Reader.{Reader, at_end, step}
use lavoro_l.Reader.Source.{Source}
use lavoro_l.Reader.Pending.{
  pending, Holds, next-spent, next-IsLoaded, current-IsLoaded, live-pending,
}
use lavoro_l.Transfer.{Screenful, c_string, print_buffer, put_char, finish, show_loop, show}
use lavoro_l.Transfer.Copy.{IsFresh}
use lavoro_l.File.Source.{nil_of_length}

abbrev pub flatten : List (List ℕ) → List ℕ
flatten [] = []
flatten (t ∷ ts) = t ++ flatten ts

abbrev pub HasNoZero : List ℕ → Type 0
HasNoZero [] = Unit {0}
HasNoZero (c ∷ cs) = (c ≢ 0) × HasNoZero cs

c_string-HasNoZero : (cs : List ℕ) → HasNoZero cs → c_string cs ≡ cs
c_string-HasNoZero [] h = refl
c_string-HasNoZero (c ∷ cs) h = ground (arith, c_string-HasNoZero cs)

flatten-append : (ts us : List (List ℕ)) → flatten (ts ++ us) ≡ flatten ts ++ flatten us
flatten-append [] us = refl
flatten-append (t ∷ ts) us = rw (flatten-append ts us, append_assoc) refl

HasNoZero-append : (cs : List ℕ) (c : ℕ) → HasNoZero cs → c ≢ 0 → HasNoZero (cs ++ c ∷ [])
HasNoZero-append [] c h n = (n, tt)
HasNoZero-append (d ∷ cs) c h n = (h.0, HasNoZero-append cs c h.1 n)

-- All that was taken from the file: what is printed and what waits in the buffer.
abbrev taken : Screenful → List ℕ
taken s = flatten s.printed ++ s.filled

record HasRoom (s : Screenful) : Type 0 where
  shown : HasNoZero s.filled
  room : length s.filled < 255

print_buffer-taken : (s : Screenful) → HasNoZero s.filled → taken (print_buffer s) ≡ taken s
print_buffer-taken s h =
    rw (append-nil, flatten-append, c_string-HasNoZero s.filled h, append-nil) refl

put_char-taken :
    {s : Screenful} (c : ℕ)
    → HasRoom s
    → c ≢ 0
    → (taken (put_char s c) ≡ taken s ++ c ∷ []) × HasRoom (put_char s c)
unfolding put_char
put_char-taken {s} c v n = elim (Bool-cases (length (s.filled ++ c ∷ []) == 255)) [
  | inl full ↦ rw full (
    print_buffer-taken (record s { filled = s.filled ++ c ∷ [] }) grown ∙ regroup,
    record { shown = tt; room = omega arith },
  )
  | inr room ↦ rw room (
    regroup,
    record {
      shown = grown;
      room = let h = v.room in ground (arith, length-append s.filled (c ∷ []));
    },
  )
]
  where
    grown : HasNoZero (s.filled ++ c ∷ [])
    grown = HasNoZero-append s.filled c v.shown n

    regroup : flatten s.printed ++ (s.filled ++ c ∷ []) ≡ (flatten s.printed ++ s.filled) ++ c ∷ []
    regroup = sym (append_assoc (flatten s.printed) s.filled (c ∷ []))

finish-taken : {s : Screenful} → HasRoom s → flatten (finish s).printed ≡ taken s
unfolding finish
finish-taken {s} v = elim (Bool-cases (length s.filled == 0)) [
  | inl empty ↦
      rw empty (sym (rw (nil_of_length s.filled (ground arith)) (append-nil (flatten s.printed))))
  | inr some_left ↦
      rw some_left
        (sym (append-nil (flatten (print_buffer s).printed)) ∙ print_buffer-taken s v.shown)
]

module _ {S : Type 0} {read_buffer : Reader S → Bool × Reader S} (src : Source read_buffer) where
  show_loop-taken :
      (bs : List ℕ) (fuel : ℕ) (s : Screenful) (r : Reader S)
      → at_end r ≡ false
      → Holds src.rest (step read_buffer r) bs
      → HasNoZero bs
      → HasRoom s
      → length bs < fuel
      → (s' : Screenful) × (r' : Reader S) × (show_loop read_buffer fuel s r ≡ some (s', r'))
        × HasRoom s'
        × (taken s' ≡ taken s ++ bs)
  unfolding show_loop
  show_loop-taken bs zero s r live h z v l = absurd (omega arith)
  show_loop-taken [] (suc fuel) s r live h z v l = (
    s,
    step read_buffer r,
    rw (live, current-IsLoaded src h.valid h.loaded, h.left, current-IsLoaded src h.valid h.loaded)
        refl,
    v,
    sym (append-nil (taken s)),
  )
  show_loop-taken (b ∷ bs) (suc fuel) s r live h z v l =
      let put = put_char-taken b v z.0 in
      let run =
        show_loop-taken bs fuel (put_char s b) (step read_buffer r)
          (live-pending src.rest (step read_buffer r) h.left)
          (rw h.left at (next-IsLoaded src h.valid h.loaded)) z.1 put.1 (omega arith) in
      (
        run.0,
        run.1,
        rw
            (
              live,
              current-IsLoaded src h.valid h.loaded,
              h.left,
              current-IsLoaded src h.valid h.loaded,
              current-IsLoaded src h.valid h.loaded,
              h.left,
            )
            run.2,
        run.3,
        run.4 ∙ ap (λ t. t ++ bs) put.0 ∙ append_assoc (taken s) (b ∷ []) bs,
      )

  -- What the loop leaves: all that was taken from the file, printed with what waits in the buffer.
  pub show_loop-finish :
      (fuel : ℕ) {r : Reader S}
      → IsFresh r
      → HasNoZero (pending src.rest r)
      → length (pending src.rest r) < fuel
      → (s' : Screenful) × (r' : Reader S) × (show_loop read_buffer fuel
            (record { filled = []; printed = [] })
            r
          ≡ some (s', r'))
        × (flatten (finish s').printed ≡ pending src.rest r)
  show_loop-finish fuel {r} f z l =
      let empty : Screenful = record { filled = []; printed = [] } in
      let run =
        show_loop-taken (pending src.rest r) fuel empty r f.live
          (next-spent src f.valid f.live f.spent) z (record { shown = tt; room = omega arith }) l in
      (run.0, run.1, run.2, finish-taken run.3 ∙ run.4)

  -- cat: with more fuel than bytes the loop ends, and for a file without zero bytes the texts that
  -- are printed are, one after the other, the bytes of the file.
  pub show_lem :
      (fuel : ℕ) {r : Reader S}
      → IsFresh r
      → HasNoZero (pending src.rest r)
      → length (pending src.rest r) < fuel
      → (ts : List (List ℕ)) × (show read_buffer fuel r ≡ some ts)
        × (flatten ts ≡ pending src.rest r)
  unfolding show
  show_lem fuel {r} f z l =
      let run = show_loop-finish fuel f z l in
      ((finish run.0).printed, rw (run.2, show) refl, run.3)
