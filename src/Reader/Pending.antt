-- ===== src/Reader/Pending.antt =====
-- What a binary reader has still to deliver, and how `Next` and `Current` move over it.
use lavoro_l.Base.{
  ℕ, ◌+◌, ◌-◌, ◌<◌, ◌≡◌, refl, Bool, true, false, none, some, List, [], ◌∷◌, ◌++◌, sym, ap, ◌∙◌,
  ◌==◌, if◌then◌else◌, arith, length, slice, slice-cons, head?, tail, inl, inr, Bool-cases,
}
use lavoro_l.Reader.{
  Reader, at_end, set_end, cell, reader_buffer_size, loaded_current, after_read, refill, current,
  next,
}
use lavoro_l.Reader.Source.{Source, Filled, IsValid, IsLoaded}

module _ {S : Type 0} (rest : S → List ℕ) where
  -- The bytes between `current` and `size`, then those of the source.
  abbrev pub pending : Reader S → List ℕ
  pending r = if at_end r then [] else (slice r.current r.size r.buffer ++ rest r.source)

  -- A loaded reader with exactly `bytes` before it.
  pub record Holds (r : Reader S) (bytes : List ℕ) : Type 0 where
    pub valid : IsValid r
    pub loaded : IsLoaded r
    pub left : pending r ≡ bytes

  Holds-end :
      (r : Reader S)
      → r.is_text ≡ false
      → length r.buffer ≡ reader_buffer_size
      → Holds (set_end r) []
  Holds-end r b c = record {
    valid = record { binary = b; cells = c; ordered = λ h. cc; bounded = λ h. cc };
    loaded = λ h. cc;
    left = refl;
  }

  pub pending-loaded :
      {r : Reader S}
      → IsValid r
      → at_end r ≡ false
      → r.current < r.size
      → pending r ≡ cell r ∷ (slice (r.current + 1) r.size r.buffer ++ rest r.source)
  pending-loaded {r} v live h = rw live (
      rw (
        slice-cons r.current r.size r.buffer 0 h
          (let c = v.cells in let b = v.bounded live in omega arith)))

  pub pending-spent :
      (r : Reader S) → at_end r ≡ false → r.current ≡ r.size → pending r ≡ rest r.source
  pending-spent r live e = let z : r.size - r.current ≡ 0 = omega arith in rw (live, z) refl

  pub cell-pending :
      {r : Reader S} {b : ℕ} {bs : List ℕ}
      → IsValid r
      → IsLoaded r
      → pending r ≡ b ∷ bs
      → cell r ≡ b
  cell-pending {r} v l p = elim (Bool-cases (at_end r)) [
    | inl over ↦ ground arith
    | inr live ↦ ground (arith, pending-loaded v live (l live))
  ]

  pub live-pending : (r : Reader S) {b : ℕ} {bs : List ℕ} → pending r ≡ b ∷ bs → at_end r ≡ false
  live-pending r p = ground arith

  pub pending-end : {r : Reader S} → IsValid r → IsLoaded r → pending r ≡ [] → at_end r ≡ true
  pending-end {r} v l p = elim (Bool-cases (at_end r)) [
    | inl over ↦ over
    | inr live ↦ ground (arith, pending-loaded v live (l live))
  ]

  loaded_current-live :
      {r : Reader S} → IsValid r → at_end r ≡ false → loaded_current r ≡ (some (cell r), r)
  unfolding loaded_current
  loaded_current-live v live = ground arith

  -- A refilled buffer, from the promise of `ReadBuffer`.
  after_read-Holds :
      {r : Reader S} (out : Bool × Reader S)
      → IsValid r
      → Filled rest r out
      → Holds (after_read out).1 (rest r.source)
  unfolding after_read
  after_read-Holds (false, r') v f =
      rw (f.ended refl) (Holds-end r' (f.mode ∙ v.binary) (f.cells ∙ v.cells))
  after_read-Holds {r} (true, r') v f =
      rw (more, loaded_current-live valid live)
        (record {
          valid = valid;
          loaded = λ _. f.some_bytes refl;
          left = rw live (sym (f.bytes refl));
        })
    where
      started : Reader S
      started = record r' { current = 0 }

      more : (0 == r'.size) ≡ false
      more = let h = f.some_bytes refl in ground arith

      live : at_end started ≡ false
      live = let h = f.fits refl in ground arith

      valid : IsValid started
      valid = record {
        binary = f.mode ∙ v.binary;
        cells = f.cells ∙ v.cells;
        ordered = λ _. omega arith;
        bounded = λ _. f.fits refl;
      }

-- Every step below is for a `ReadBuffer` that keeps its promises.
module _ {S : Type 0} {read_buffer : Reader S → Bool × Reader S} (src : Source read_buffer) where
  refill-Holds :
      {r : Reader S}
      → IsValid r
      → at_end r ≡ false
      → Holds src.rest (refill read_buffer r).1 (src.rest r.source)
  unfolding refill
  refill-Holds {r} v live =
      rw live (after_read-Holds src.rest (read_buffer r) v (src.fills r live v.cells))

  -- Where a byte is at hand `Current` returns it and changes nothing.
  pub current-IsLoaded :
      {r : Reader S}
      → IsValid r
      → IsLoaded r
      → current read_buffer r ≡ (head? (pending src.rest r), r)
  unfolding current
  current-IsLoaded {r} v l = elim (Bool-cases (at_end r)) [
    | inl over ↦ rw over refl
    | inr live ↦ ground (arith, v.binary, l live, pending-loaded src.rest v live (l live))
  ]

  -- Where none is, `Current` fetches, and returns the cell at `current` whatever the fetch gave.
  current_fetches :
      {r : Reader S}
      → IsValid r
      → at_end r ≡ false
      → r.current ≡ r.size
      → current read_buffer r ≡ (some (cell (refill read_buffer r).1), (refill read_buffer r).1)
  unfolding current
  current_fetches {r} v live e = let b = v.binary in ground arith

  pub current-spent :
      {r : Reader S}
      → IsValid r
      → at_end r ≡ false
      → r.current ≡ r.size
      → Holds src.rest (current read_buffer r).1 (pending src.rest r)
  current-spent {r} v live e =
      rw (pending-spent src.rest r live e, current_fetches v live e) (refill-Holds v live)

  -- If there is a byte left it is that byte.
  pub current-spent_value :
      {r : Reader S} {b : ℕ} {bs : List ℕ}
      → IsValid r
      → at_end r ≡ false
      → r.current ≡ r.size
      → pending src.rest r ≡ b ∷ bs
      → (current read_buffer r).0 ≡ some b
  current-spent_value {r} v live e p =
      let h = refill-Holds v live in
      rw (current_fetches v live e) (
        ap some (
          cell-pending src.rest h.valid h.loaded
            (h.left ∙ sym (pending-spent src.rest r live e) ∙ p)))

  -- `Next` on a fresh or exhausted buffer moves over nothing.
  pub next-spent :
      {r : Reader S}
      → IsValid r
      → at_end r ≡ false
      → r.current ≡ r.size
      → Holds src.rest (next read_buffer r).1 (pending src.rest r)
  next-spent {r} v live e = rw (pending-spent src.rest r live e, next-refill) (refill-Holds v live)
    where
      next-refill : next read_buffer r ≡ refill read_buffer r
      next-refill = unfold next in (ground arith)

  module _ {r : Reader S} (v : IsValid r) (live : at_end r ≡ false)
      (more : r.current < r.size) where
    abbrev advanced : Reader S
    advanced = record r { current = r.current + 1 }

    advanced-IsValid : IsValid advanced
    advanced-IsValid = record {
      binary = v.binary;
      cells = v.cells;
      ordered = λ h. omega arith;
      bounded = λ h. v.bounded live;
    }

    next-current : next read_buffer r ≡ current read_buffer advanced
    unfolding next
    next-current = ground arith

    pending-advanced : pending src.rest advanced ≡ tail (pending src.rest r)
    pending-advanced = rw (pending-loaded src.rest v live more) (rw live refl)

    next-live : Holds src.rest (next read_buffer r).1 (tail (pending src.rest r))
    next-live =
        rw (next-current, ← pending-advanced)
          (elim (Bool-cases (r.current + 1 == r.size)) [
            | inl last ↦ current-spent advanced-IsValid live (ground arith)
            | inr inside ↦
                let l : IsLoaded advanced = λ _. ground arith in
                rw (current-IsLoaded advanced-IsValid l)
                  (record { valid = advanced-IsValid; loaded = l; left = refl })
          ])

  -- `Next` with a byte at hand moves over that byte.
  pub next-IsLoaded :
      {r : Reader S}
      → IsValid r
      → IsLoaded r
      → Holds src.rest (next read_buffer r).1 (tail (pending src.rest r))
  next-IsLoaded {r} v l = elim (Bool-cases (at_end r)) [
    | inl over ↦ rw (next-over over, over) (record { valid = v; loaded = l; left = rw over refl })
    | inr live ↦ next-live v live (l live)
  ]
    where
      next-over : at_end r ≡ true → next read_buffer r ≡ (none, r)
      next-over h = unfold next in (ground arith)
