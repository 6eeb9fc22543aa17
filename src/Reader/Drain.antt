-- ===== src/Reader/Drain.antt =====
-- The loops of main.cpp that take every byte of a file: `while (!Reader.AtEnd()) { use
-- Reader.Current(); Reader.Next(); }`, with what is done to a byte as a parameter.
use lavoro_l.Base.{
  ℕ, zero, suc, ◌<◌, ◌≡◌, refl, Bool, true, Option, none, some, List, [], ◌∷◌, arith, length,
  if◌then◌else◌,
}
use lavoro_l.Reader.{Reader, at_end, current, step}
use lavoro_l.Reader.Source.{Source}
use lavoro_l.Reader.Pending.{Holds, current-IsLoaded, next-IsLoaded, live-pending, pending-end}

-- The `unsigned char` that an `int` of `Current` is cast to.
abbrev pub uchar : Option ℕ → ℕ
uchar none = 255
uchar (some c) = c

module _ {S A : Type 0} (read_buffer : Reader S → Bool × Reader S) (put : A → ℕ → A) where
  -- The loop, on fuel; `none` means that the fuel ran out.
  unfoldable pub drain : ℕ → A → Reader S → Option (A × Reader S)
  drain zero a r = none
  drain (suc fuel) a r =
      let (c, r') = current read_buffer r in
      let rest : Option (A × Reader S) = drain fuel (put a (uchar c)) (step read_buffer r') in
      if at_end r then some (a, r) else rest

-- The bytes put one after the other.
abbrev pub feed : {A : Type 0} → (A → ℕ → A) → A → List ℕ → A
feed put a [] = a
feed put a (b ∷ bs) = feed put (put a b) bs

-- Every byte before the reader is put, in order and once, and the reader is then at its end.
pub drain-feed :
    {S A : Type 0} {read_buffer : Reader S → Bool × Reader S} (src : Source read_buffer)
    (put : A → ℕ → A) (bs : List ℕ) (fuel : ℕ) (a : A) {r : Reader S}
    → Holds src.rest r bs
    → length bs < fuel
    → (r' : Reader S) × (drain read_buffer put fuel a r ≡ some (feed put a bs, r'))
      × (at_end r' ≡ true)
unfolding drain
drain-feed src put bs zero a h l = absurd (omega arith)
drain-feed src put [] (suc fuel) a {r} h l =
    let over = pending-end src.rest h.valid h.loaded h.left in (r, rw over refl, over)
drain-feed {read_buffer} src put (b ∷ bs) (suc fuel) a {r} h l =
    rw (live-pending src.rest r h.left, current-IsLoaded src h.valid h.loaded, h.left)
      (drain-feed src put bs fuel (put a b) (rw h.left at (next-IsLoaded src h.valid h.loaded))
        (omega arith))
